-- ===== src/Network/Publish/Sound.antt =====
-- crates/kakoi-policy/src/network.rs: the maps of ends and the list of publications stay in step.
use kakoi.Prelude.{
  ℕ, zero, suc, true, false, ◌||◌, Option, none, some, List, [], ◌∷◌, ◌++◌, get, length, is_some,
  ok, err, ok_same, err_same, ◌≡◌, ◌≢◌, refl, sym, ◌∙◌, ap, subst, ◌⊎◌, inl, inr, arith, ◌==◌,
  eq_of, eq_refl, nat_eq, pair_eq, option_beq, option_eq, Bool-cases, Option-cases, ||-false, All,
  All-map, All-In, All-append, In, here, there, Distinct,
}
use kakoi.Network.{protocol_eq, family_eq}
use kakoi.Network.Publish.{
  FixedPublication, publication_eq, PublicationError, conflicting, Endpoint, inside_end, host_end,
  Merging, nth, stands_at, merge_entry, no_publications,
}

nth_keep {ℓ} :
    {A : Type ℓ} (n : ℕ) (xs ys : List A) {a : A} → nth n xs ≡ some a → nth n (xs ++ ys) ≡ some a
unfolding nth
nth_keep n [] ys h = absurd (cc h)
nth_keep zero (x ∷ xs) ys h = h
nth_keep (suc n) (x ∷ xs) ys h = nth_keep n xs ys h

nth_last {ℓ} : {A : Type ℓ} (xs : List A) (a : A) → nth (length xs) (xs ++ (a ∷ [])) ≡ some a
unfolding nth
nth_last [] a = refl
nth_last (x ∷ xs) a = nth_last xs a

nth-In {ℓ} : {A : Type ℓ} (n : ℕ) (xs : List A) {a : A} → nth n xs ≡ some a → In a xs
unfolding nth
nth-In n [] h = absurd (cc h)
nth-In zero (x ∷ xs) h = here (sym (ground (arith, h)))
nth-In (suc n) (x ∷ xs) h = there (nth-In n xs h)

get-In : (k : Endpoint) (m : List (Endpoint × ℕ)) {v : ℕ} → get k m ≡ some v → In (k, v) m
unfolding get
get-In k [] h = absurd (cc h)
get-In k ((j, w) ∷ m) {v} h = elim (Bool-cases (j == k)) [
  | inl same ↦
      let value : w ≡ v = ground (arith, h, same) in
      let key : j ≡ k = eq_of j k same in here (cc (value, key))
  | inr other ↦ there (get-In k m (ground (arith, h, other)))
]

get_more :
    (k j : Endpoint) (v : ℕ) (m : List (Endpoint × ℕ))
    → is_some (get k m) ≡ true
    → is_some (get k ((j, v) ∷ m)) ≡ true
unfolding get
get_more k j v m h = elim (Bool-cases (j == k)) [ inl same ↦ rw same refl | inr other ↦ rw other h ]

get_first : (k : Endpoint) (v : ℕ) (m : List (Endpoint × ℕ)) → is_some (get k ((k, v) ∷ m)) ≡ true
unfolding get
get_first k v m = rw (eq_refl k) refl

Distinct-append_one {ℓ κ} :
    {A : Type ℓ} {B : Type κ} (f : A → B) (xs : List A) (y : A)
    → Distinct f xs
    → All (λ x. f x ≢ f y) xs
    → Distinct f (xs ++ (y ∷ []))
Distinct-append_one f [] y d h = (tt, tt)
Distinct-append_one f (x ∷ xs) y d h =
    (All-append (λ z. f x ≢ f z) xs (y ∷ []) d.0 (h.0, tt), Distinct-append_one f xs y d.1 h.1)

-- The maps know every entry merged so far, and only those; no two entries share an end.
pub record Sound (state : Merging) : Type 0 where
  pub ports_at :
      All
        (λ p. (e : FixedPublication) × (nth p.1 state.merged ≡ some e) × (inside_end e ≡ p.0))
        state.ports
  pub hosts_at :
      All
        (λ p. (e : FixedPublication) × (nth p.1 state.merged ≡ some e) × (host_end e ≡ p.0))
        state.host_ports
  pub known : All (λ e. is_some (get (inside_end e) state.ports) ≡ true) state.merged
  pub hosts_known : All (λ e. is_some (get (host_end e) state.host_ports) ≡ true) state.merged
  pub apart : Distinct inside_end state.merged
  pub hosts_apart : Distinct host_end state.merged

-- An end that a map does not know is no entry's end.
unknown_end :
    (f : FixedPublication → Endpoint) (entry : FixedPublication) (merged : List FixedPublication)
    (m : List (Endpoint × ℕ))
    → All (λ e. is_some (get (f e) m) ≡ true) merged
    → is_some (get (f entry) m) ≡ false
    → All (λ e. f e ≢ f entry) merged
unknown_end f entry merged m h fresh =
    All-map merged (λ e k. λ p. let q = ap (λ z. is_some (get z m)) p in cc) h

pushed :
    (entry : FixedPublication) (state : Merging)
    → Sound state
    → is_some (get (inside_end entry) state.ports) ≡ false
    → is_some (get (host_end entry) state.host_ports) ≡ false
    → Sound (record {
      merged = state.merged ++ (entry ∷ []);
      ports = (inside_end entry, length state.merged) ∷ state.ports;
      host_ports = (host_end entry, length state.merged) ∷ state.host_ports;
    })
pushed entry state h new_port new_host = record {
  ports_at = (
    (entry, nth_last state.merged entry, refl),
    All-map state.ports (λ p (e, at, same). (e, nth_keep p.1 state.merged (entry ∷ []) at, same))
        h.ports_at,
  );
  hosts_at = (
    (entry, nth_last state.merged entry, refl),
    All-map state.host_ports
        (λ p (e, at, same). (e, nth_keep p.1 state.merged (entry ∷ []) at, same)) h.hosts_at,
  );
  known =
      All-append _ state.merged (entry ∷ [])
        (All-map state.merged (λ e k. get_more (inside_end e) _ _ state.ports k) h.known)
        (get_first (inside_end entry) _ state.ports, tt);
  hosts_known =
      All-append _ state.merged (entry ∷ [])
        (All-map state.merged (λ e k. get_more (host_end e) _ _ state.host_ports k) h.hosts_known)
        (get_first (host_end entry) _ state.host_ports, tt);
  apart =
      Distinct-append_one inside_end state.merged entry h.apart
        (unknown_end inside_end entry state.merged state.ports h.known new_port);
  hosts_apart =
      Distinct-append_one host_end state.merged entry h.hosts_apart
        (unknown_end host_end entry state.merged state.host_ports h.hosts_known new_host);
}

-- What one round does to the list: nothing when the entry is there already, else it is appended.
pub data Round (entry : FixedPublication) (state next : Merging) : Type 0 where
  repeated : In entry state.merged → next ≡ state → Round entry state next
  appended : next.merged ≡ state.merged ++ (entry ∷ []) → Sound next → Round entry state next

standing :
    (merged : List FixedPublication) (entry : FixedPublication) (o : Option ℕ)
    → stands_at merged entry o ≡ true
    → In entry merged
unfolding option_beq
standing merged entry none h = absurd (cc h)
standing merged entry (some index) h = nth-In index merged (eq_of (nth index merged) (some entry) h)

pub merge_entry-Round :
    (entry : FixedPublication) (state : Merging) {next : Merging}
    → Sound state
    → merge_entry entry state ≡ ok next
    → Round entry state next
unfolding merge_entry
merge_entry-Round entry state {next} s h =
    elim (Bool-cases (stands_at state.merged entry (get (inside_end entry) state.ports))) [
      | inl there_already ↦
          repeated (standing state.merged entry _ there_already)
            (sym (ok_same (rw there_already at h)))
      | inr new ↦
          let port_known = is_some (get (inside_end entry) state.ports) in
          let host_known = is_some (get (host_end entry) state.host_ports) in
          elim (Bool-cases (port_known || host_known)) [
            | inl taken ↦ absurd (cc (rw (new, taken) at h))
            | inr free ↦
                let (a, b) = ||-false port_known host_known free in
                let same = ok_same (rw (new, free) at h) in
                appended (ap (λ (z : Merging). z.merged) (sym same))
                  (subst Sound same (pushed entry state s a b))
          ]
    ]

-- A conflict: two different entries, both in the list, share an end.
abbrev pub Conflict : List FixedPublication → FixedPublication → Type 0
Conflict entries entry =
    (other : FixedPublication) × In other entries
    × (other ≢ entry)
    × ((inside_end other ≡ inside_end entry) ⊎ (host_end other ≡ host_end entry))

pub conflicted :
    (entry : FixedPublication) (state : Merging) {e : PublicationError}
    → Sound state
    → merge_entry entry state ≡ err e
    → (e ≡ conflicting entry) × Conflict state.merged entry
unfolding merge_entry
conflicted entry state s h =
    elim (Bool-cases (stands_at state.merged entry (get (inside_end entry) state.ports))) [
      | inl there_already ↦ absurd (cc (rw there_already at h))
      | inr new ↦
          let port_known = is_some (get (inside_end entry) state.ports) in
          let host_known = is_some (get (host_end entry) state.host_ports) in
          elim (Bool-cases (port_known || host_known)) [
            | inr free ↦ absurd (cc (rw (new, free) at h))
            | inl taken ↦ (
              sym (err_same (rw (new, taken) at h)),
              blamed (Option-cases (get (inside_end entry) state.ports))
                  (Option-cases (get (host_end entry) state.host_ports)) new taken,
            )
          ]
    ]
  where
    differs :
        (index : ℕ) (other : FixedPublication)
        → stands_at state.merged entry (some index) ≡ false
        → nth index state.merged ≡ some other
        → other ≢ entry
    differs index other new at same =
        let q : nth index state.merged ≡ some entry = at ∙ ap some same in
        let b : stands_at state.merged entry (some index) ≡ true = rw q (eq_refl (some entry)) in cc

    blamed :
        (get (inside_end entry) state.ports ≡ none)
          ⊎ ((i : ℕ) × (get (inside_end entry) state.ports ≡ some i))
        → (get (host_end entry) state.host_ports ≡ none)
          ⊎ ((i : ℕ) × (get (host_end entry) state.host_ports ≡ some i))
        → stands_at state.merged entry (get (inside_end entry) state.ports) ≡ false
        → (is_some (get (inside_end entry) state.ports)
            || is_some (get (host_end entry) state.host_ports))
          ≡ true
        → Conflict state.merged entry
    blamed (inr (i, found)) host new taken =
        let (other, at, same) =
          All-In _ state.ports s.ports_at (get-In (inside_end entry) state.ports found) in
        (other, nth-In i state.merged at, differs i other (rw found at new) at, inl same)
    blamed (inl absent) (inl gone) new taken = absurd (cc (rw (absent, gone) at taken))
    blamed (inl absent) (inr (i, found)) new taken =
        let (other, at, same) =
          All-In _ state.host_ports s.hosts_at (get-In (host_end entry) state.host_ports found) in
        let m = nth-In i state.merged at in
        let known = All-In _ state.merged s.known m in
        (other, m, λ p. absurd (cc (rw (p, absent) at known)), inr same)

pub start-Sound : Sound no_publications
start-Sound = record {
  ports_at = tt;
  hosts_at = tt;
  known = tt;
  hosts_known = tt;
  apart = tt;
  hosts_apart = tt;
}
