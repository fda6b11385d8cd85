-- ===== src/Wildcard/Laws.antt =====
-- crates/kakoi-policy/src/wildcard.rs: what a pattern means, as an inductive relation.
use kakoi.Prelude.{
  ℕ, zero, suc, ◌+◌, ◌≤◌, true, false, Option, none, some, List, [], ◌∷◌, ◌++◌, ◌≡◌, refl, sym, ap,
  ◌∙◌, subst, All-append, length-append, ◌≢◌, ◌⊎◌, inl, inr, arith, length, drop, all, eqb,
  Bool-cases,
}
use kakoi.Wildcard.{star_byte, any_byte, retry, loop, fuel_for, matches}
use kakoi.Wildcard.Meaning.{
  Matches, star_none, star_more, one, one_star, all_stars, no_stars, Ready, Decided, less_rank,
  same_rank, drop_nil, drop_next, length-drop, append_assoc, differs, from_star, from_prefix,
  last_run,
}

module _ (G : Type 0) (n : ℕ) where
  -- The text has ended: the rest of the pattern has to be `*`.
  ended :
      {fuel : ℕ} (p : List ℕ) (star : Option (List ℕ × List ℕ))
      → Ready G n fuel p [] star
      → Decided G (some (all (λ byte. eqb byte star_byte) p))
  ended p none ready = elim (Bool-cases (all (λ byte. eqb byte star_byte) p)) [
    | inl h ↦ inl (ap some h, ready.sound (all_stars p h))
    | inr h ↦ inr (ap some h, λ g. no_stars p h (ready.complete g))
  ]
  ended p (some (r, s)) ready = elim (Bool-cases (all (λ byte. eqb byte star_byte) p)) [
    | inl h ↦ inl (ap some h, ready.sound.0 (all_stars p h))
    | inr h ↦
        inr (ap some h, λ g. no_stars p h (last_run (from_star ready.link (ready.complete g))))
  ]

  -- A mismatch: the last `*` takes one byte more.
  retried :
      (fuel : ℕ) (p : List ℕ) (b : ℕ) (t : List ℕ) (star : Option (List ℕ × List ℕ))
      → Ready G n (suc fuel) p (b ∷ t) star
      → ¬ Matches p (b ∷ t)
      → ((p' t' : List ℕ) (star' : Option (List ℕ × List ℕ))
          → Ready G n fuel p' t' star'
          → Decided G (loop fuel p' t' star'))
      → Decided G (elim (retry star) [
        | none ↦ some false
        | some next ↦ loop fuel next.pattern next.text next.star
      ])
  retried fuel p b t none ready differs again = inr (refl, λ g. differs (ready.complete g))
  retried fuel p b t (some (r, [])) ready differs again =
      let (q, f, e, d) = ready.link in absurd (cc (d, drop_nil (length q)))
  retried fuel p b t (some (r, c ∷ s)) ready differs again = again r s (some (r, s)) record {
    link = ([], tt, refl, refl);
    sound = (
      λ m. ready.sound.1 (star_more refl (star_none refl m)),
      λ m. ready.sound.1 (star_more refl m),
    );
    complete = λ g. elim (ready.complete g) [
      | star_none e m ↦ absurd (differs (from_prefix ready.link m))
      | star_more e m ↦ m
      | one n e m ↦ absurd (n refl)
    ];
    bounded =
        let rank_drops =
          less_rank (length r + length s) (length r + suc (length s)) (suc n) (omega arith) in
        let (b1, b2) = ready.bounded in (omega (arith, ready.run), omega (arith, ready.run));
    run = omega (arith, ready.run);
  }

  -- One byte of the pattern takes one byte of the text.
  consumed :
      (fuel : ℕ) (c : ℕ) (p : List ℕ) (b : ℕ) (t : List ℕ) (star : Option (List ℕ × List ℕ))
      → Ready G n (suc fuel) (c ∷ p) (b ∷ t) star
      → c ≢ star_byte
      → (c ≡ any_byte) ⊎ (c ≡ b)
      → Ready G n fuel p t star
  consumed fuel c p b t none ready other takes = record {
    link = tt;
    sound = λ m. ready.sound (one other takes m);
    complete = λ g. elim (ready.complete g) [
      | star_none e m ↦ absurd (other e)
      | star_more e m ↦ absurd (other e)
      | one n e m ↦ m
    ];
    bounded =
        let (b1, b2) = ready.bounded in
        let rank_drops =
          same_rank (length p + length t) (suc (length p) + suc (length t)) (suc n) (omega arith) in
        (omega arith, omega arith);
    run = tt;
  }
  consumed fuel c p b t (some (r, s)) ready other takes =
      let (q, f, e, d) = ready.link in
      let (b1, b2) = ready.bounded in
      record {
        link = (
          q ++ (c ∷ []),
          All-append (λ x. x ≢ star_byte) q (c ∷ []) f (other, tt),
          e ∙ append_assoc q c p,
          drop_next (length q) s d
              ∙ ap (λ k. drop k s) {x = suc (length q)} (omega (arith, length-append q (c ∷ []))),
        );
        sound = (λ m. ready.sound.0 (one other takes m), ready.sound.1);
        complete = ready.complete;
        bounded = (omega arith, omega arith);
        run = ready.run;
      }

  -- A new `*`, at its shortest run.
  starred :
      (fuel : ℕ) (c : ℕ) (p : List ℕ) (b : ℕ) (t : List ℕ) (star : Option (List ℕ × List ℕ))
      → Ready G n (suc fuel) (c ∷ p) (b ∷ t) star
      → c ≡ star_byte
      → Ready G n fuel p (b ∷ t) (some (p, b ∷ t))
  starred fuel c p b t none ready e =
      let (b1, b2) = ready.bounded in
      let rank_drops =
        less_rank (length p + suc (length t)) (suc (length p) + suc (length t)) (suc n)
          (omega arith) in
      record {
        link = ([], tt, refl, refl);
        sound = (
          λ m. ready.sound (star_none e m),
          λ m. ready.sound (subst (λ z. Matches (z ∷ p) (b ∷ t)) (sym e) m),
        );
        complete = λ g. subst (λ z. Matches (z ∷ p) (b ∷ t)) e (ready.complete g);
        bounded = (b1, omega arith);
        run = b1;
      }
  starred fuel c p b t (some (r, s)) ready e =
      let (q, f, e', d) = ready.link in
      let (b1, b2) = ready.bounded in
      let whole : length r ≡ length q + suc (length p) = ap length e' ∙ length-append q (c ∷ p) in
      let run : suc (length t) ≤ length s =
        subst (λ z. length z ≤ length s) (sym d) (length-drop (length q) s) in
      let rank_drops =
        less_rank (length p + suc (length t)) (length r + length s) (suc n) (omega arith) in
      record {
        link = ([], tt, refl, refl);
        sound = (
          λ m. ready.sound.0 (star_none e m),
          λ m. ready.sound.0 (subst (λ z. Matches (z ∷ p) (b ∷ t)) (sym e) m),
        );
        complete = λ g. one_star (
            subst (λ z. Matches (star_byte ∷ z ∷ p) (b ∷ t)) e
              (from_star ready.link (ready.complete g)));
        bounded = (b1, omega arith);
        run = b1;
      }

  loop-Decided :
      (fuel : ℕ) (p t : List ℕ) (star : Option (List ℕ × List ℕ))
      → Ready G n fuel p t star
      → Decided G (loop fuel p t star)
  unfolding loop
  loop-Decided zero p t star ready = let (b1, b2) = ready.bounded in absurd (omega arith)
  loop-Decided (suc fuel) p [] star ready = ended p star ready
  loop-Decided (suc fuel) [] (b ∷ t) star ready =
      retried fuel [] b t star ready (λ m. elim m [ ]) (loop-Decided fuel)
  loop-Decided (suc fuel) (c ∷ p) (b ∷ t) star ready = elim (Bool-cases (eqb c star_byte)) [
    | inl s ↦
        rw (s, loop)
          (loop-Decided fuel p (b ∷ t) (some (p, b ∷ t))
            (starred fuel c p b t star ready (ground arith)))
    | inr s ↦ elim (Bool-cases (eqb c any_byte)) [
      | inl y ↦
          rw (s, y, loop)
            (loop-Decided fuel p t star
              (consumed fuel c p b t star ready (ground arith) (inl (ground arith))))
      | inr y ↦ elim (Bool-cases (eqb c b)) [
        | inl w ↦
            rw (s, y, w, loop)
              (loop-Decided fuel p t star
                (consumed fuel c p b t star ready (ground arith) (inr (ground arith))))
        | inr w ↦
            rw (s, y, w, loop)
              (retried fuel (c ∷ p) b t star ready
                (differs (ground arith) (ground arith) (ground arith)) (loop-Decided fuel))
      ]
    ]
  ]

-- `matches_bytes` ends for every pattern and text with the answer, and the answer is `true` exactly
-- when the pattern matches the text: `*` stands for any run of bytes, `?` for one byte and every
-- other byte for itself.
pub matches-decides :
    (pattern text : List ℕ)
    → ((matches pattern text ≡ some true) × Matches pattern text)
      ⊎ ((matches pattern text ≡ some false) × ¬ Matches pattern text)
unfolding matches fuel_for
matches-decides pattern text =
    loop-Decided (Matches pattern text) (length text) (fuel_for pattern text) pattern text none
      record {
        link = tt;
        sound = λ m. m;
        complete = λ m. m;
        bounded = (omega arith, omega arith);
        run = tt;
      }
