-- ===== src/Network/Publish/Refused.antt =====
-- crates/kakoi-policy/src/network.rs: what the merge of publications refuses.
use kakoi.Prelude.{
  List, [], ◌∷◌, ◌++◌, err, err_same, Result-cases, ◌≡◌, refl, sym, ◌∙◌, ap, subst, inl, inr,
  nat_eq, pair_eq, option_eq, All, All-map, All-In, All-append, In, here, there, In-append_left,
  In-append_right,
}
use mathlib.Core.List.{append_assoc}
use kakoi.Network.{protocol_eq, family_eq}
use kakoi.Network.Publish.{
  FixedPublication, publication_eq, PublicationError, conflicting, Merging, merge_entry,
  merge_entries, no_publications, merge_publications,
}
use kakoi.Network.Publish.Sound.{
  Sound, Round, repeated, appended, merge_entry-Round, Conflict, conflicted, start-Sound,
}

-- A conflict among the entries behind a state and those still to come.
merge_entries-Conflict :
    (entries seen : List FixedPublication) (state : Merging) {e : PublicationError}
    → Sound state
    → All (λ x. In x seen) state.merged
    → merge_entries entries state ≡ err e
    → (entry : FixedPublication) × In entry entries
      × (e ≡ conflicting entry)
      × Conflict (seen ++ entries) entry
unfolding merge_entries
merge_entries-Conflict [] seen state s k h = absurd (cc h)
merge_entries-Conflict (entry ∷ entries) seen state {e} s k h =
    elim (Result-cases (merge_entry entry state)) [
      | inl (f, refused) ↦
          let (same, (other, m, apart, shared)) = conflicted entry state s refused in
          let error : f ≡ e = err_same (rw (refused, merge_entries) at h) in
          (
            entry,
            here refl,
            sym error ∙ same,
            (
              other,
              In-append_left seen (entry ∷ entries) (All-In _ state.merged k m),
              apart,
              shared,
            ),
          )
      | inr (next, f) ↦ after next (merge_entry-Round entry state s f) (λ t m.
          merge_entries-Conflict entries (seen ++ (entry ∷ [])) next t m
            (rw (f, merge_entries) at h))
    ]
  where
    Found : Type 0
    Found =
        (blamed : FixedPublication) × In blamed (entry ∷ entries)
        × (e ≡ conflicting blamed)
        × Conflict (seen ++ (entry ∷ entries)) blamed

    longer :
        (x : FixedPublication)
        → In x ((seen ++ (entry ∷ [])) ++ entries)
        → In x (seen ++ (entry ∷ entries))
    longer x m = subst (In x) (append_assoc seen (entry ∷ []) entries) m

    Later : Type 0
    Later =
        (blamed : FixedPublication) × In blamed entries
        × (e ≡ conflicting blamed)
        × Conflict ((seen ++ (entry ∷ [])) ++ entries) blamed

    widen : Later → Found
    widen (blamed, m, same, (other, n, apart, shared)) =
        (blamed, there m, same, (other, longer other n, apart, shared))

    after :
        (next : Merging)
        → Round entry state next
        → (Sound next → All (λ x. In x (seen ++ (entry ∷ []))) next.merged → Later)
        → Found
    after next (repeated m same) rest = widen (
        rest (subst Sound (sym same) s) (
          subst (λ z. All (λ x. In x (seen ++ (entry ∷ []))) z.merged) (sym same)
            (All-map state.merged (λ x. In-append_left seen (entry ∷ [])) k)))
    after next (appended same t) rest = widen (
        rest t (
          subst (All (λ x. In x (seen ++ (entry ∷ [])))) (sym same) (
            All-append _ state.merged (entry ∷ [])
              (All-map state.merged (λ x. In-append_left seen (entry ∷ [])) k)
              (In-append_right seen (entry ∷ []) (here refl), tt))))

-- When the merge of publications refuses a list, the entry that it names is in the list, and so is a
-- different entry that has the same end inside or the same end on the host.
pub merge_publications-Conflict :
    (entries : List FixedPublication) {e : PublicationError}
    → merge_publications entries ≡ err e
    → (entry : FixedPublication) × In entry entries
      × (e ≡ conflicting entry)
      × Conflict entries entry
unfolding merge_publications
merge_publications-Conflict entries {e} h =
    elim (Result-cases (merge_entries entries no_publications)) [
      | inl (f, refused) ↦
          merge_entries-Conflict entries [] no_publications start-Sound tt
            (refused ∙ ap err (err_same (rw (refused, merge_publications) at h)))
      | inr (final, f) ↦ absurd (cc (rw (f, merge_publications) at h))
    ]
