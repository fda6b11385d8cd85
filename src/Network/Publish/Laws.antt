-- ===== src/Network/Publish/Laws.antt =====
-- crates/kakoi-policy/src/network.rs: what the merge of publications accepts.
use kakoi.Prelude.{
  List, [], ◌∷◌, ◌++◌, ok, ok_same, Result-cases, ◌≡◌, refl, sym, subst, ◌⊎◌, inl, inr, nat_eq,
  pair_eq, option_eq, All, All-of, In, here, there, In-append_left, In-append_right, In-append,
  Distinct,
}
use kakoi.Network.{protocol_eq, family_eq}
use kakoi.Network.Publish.{
  FixedPublication, publication_eq, inside_end, host_end, Merging, merge_entry, merge_entries,
  no_publications, merge_publications,
}
use kakoi.Network.Publish.Sound.{Sound, Round, repeated, appended, merge_entry-Round, start-Sound}

-- The list that the merge keeps: the entries given, each once, and no two with a common end.
pub record Merged (entries merged : List FixedPublication) : Type 0 where
  pub kept : All (λ e. In e merged) entries
  pub given : All (λ e. In e entries) merged
  pub apart : Distinct inside_end merged
  pub hosts_apart : Distinct host_end merged

-- What a run over `entries` from `state` to `final` did.
record Run (entries : List FixedPublication) (state final : Merging) : Type 0 where
  sound : Sound final
  kept : All (λ e. In e final.merged) entries
  stays : (e : FixedPublication) → In e state.merged → In e final.merged
  given : (e : FixedPublication) → In e final.merged → In e state.merged ⊎ In e entries

merge_entries-Run :
    (entries : List FixedPublication) (state : Merging) {final : Merging}
    → Sound state
    → merge_entries entries state ≡ ok final
    → Run entries state final
unfolding merge_entries
merge_entries-Run [] state s h =
    subst (Run [] state) (ok_same h)
      (record { sound = s; kept = tt; stays = λ e m. m; given = λ e m. inl m })
merge_entries-Run (entry ∷ entries) state {final} s h =
    elim (Result-cases (merge_entry entry state)) [
      | inl (e, f) ↦ absurd (cc (rw (f, merge_entries) at h))
      | inr (next, f) ↦
          after next (merge_entry-Round entry state s f)
            (λ t. merge_entries-Run entries next t (rw (f, merge_entries) at h))
    ]
  where
    after :
        (next : Merging)
        → Round entry state next
        → (Sound next → Run entries next final)
        → Run (entry ∷ entries) state final
    after next (repeated m same) h =
        let run = subst (λ z. Run entries z final) same (h (subst Sound (sym same) s)) in
        record {
          sound = run.sound;
          kept = (run.stays entry m, run.kept);
          stays = run.stays;
          given = λ e i. elim (run.given e i) [ inl l ↦ inl l | inr r ↦ inr (there r) ];
        }
    after next (appended same t) h =
        let run = h t in
        let enters : (e : FixedPublication)
            → In e (state.merged ++ (entry ∷ []))
            → In e next.merged =
          λ e m. subst (In e) (sym same) m in
        record {
          sound = run.sound;
          kept = (
            run.stays entry (enters entry (In-append_right state.merged (entry ∷ []) (here refl))),
            run.kept,
          );
          stays = λ e m. run.stays e (enters e (In-append_left state.merged (entry ∷ []) m));
          given = λ e i. elim (run.given e i) [
            | inl l ↦ elim (In-append state.merged (entry ∷ []) (subst (In e) same l)) [
              | inl old ↦ inl old
              | inr (here q) ↦ inr (here q)
              | inr (there none_left) ↦ elim none_left [ ]
            ]
            | inr r ↦ inr (there r)
          ];
        }

-- When the merge of publications accepts a list, what it returns holds exactly the entries of the
-- list, each once, and no two of its entries share an end inside or on the host.
pub merge_publications-Merged :
    (entries : List FixedPublication) {merged : List FixedPublication}
    → merge_publications entries ≡ ok merged
    → Merged entries merged
unfolding merge_publications
merge_publications-Merged entries {merged} h =
    elim (Result-cases (merge_entries entries no_publications)) [
      | inl (e, f) ↦ absurd (cc (rw (f, merge_publications) at h))
      | inr (final, f) ↦
          let run = merge_entries-Run entries no_publications start-Sound f in
          subst (Merged entries) (ok_same (rw (f, merge_publications) at h)) (record {
            kept = run.kept;
            given =
                All-of _ final.merged
                  (λ e m. elim (run.given e m) [ inl l ↦ elim l [ ] | inr r ↦ r ]);
            apart = run.sound.apart;
            hosts_apart = run.sound.hosts_apart;
          })
    ]
