-- ===== src/Network/Name/Laws.antt =====
-- crates/kakoi-policy/src/network/dns_name.rs: which names a pattern matches.
use mathlib.Core.List.{append_assoc}
use kakoi.Prelude.{
  ℕ, true, false, ◌&&◌, Option, some, [], ◌∷◌, ◌++◌, length, contains, if◌then◌else◌, ltb, ok,
  Result-cases, ◌==◌, eq_of, eq_refl, nat_eq, list_eq, list_beq, ◌≡◌, ◌≢◌, refl, sym, ◌∙◌, ap,
  subst, ◌↔◌, inl, inr, ◌⊎◌, arith, Bool-cases, Option-cases, &&-true, length-append,
}
use kakoi.Policy.{Text}
use kakoi.Network.Name.{
  DnsPattern, host_names, strip_suffix, ends_with, normalize, is_labels, name_matches,
}

-- A text ends with the suffix that was stripped from it.
strip_suffix-some :
    (suffix text : Text) {front : Text}
    → strip_suffix suffix text ≡ some front
    → text ≡ front ++ suffix
unfolding strip_suffix
strip_suffix-some suffix [] {front} h = elim (Bool-cases ([] == suffix)) [
  | inl same ↦
      let empty : [] ≡ front = ground (arith, rw same at h) in
      subst (λ z. [] ≡ z ++ suffix) empty (eq_of [] suffix same)
  | inr other ↦ absurd (cc (rw other at h))
]
strip_suffix-some suffix (b ∷ text) {front} h = elim (Bool-cases ((b ∷ text) == suffix)) [
  | inl same ↦
      let empty : [] ≡ front = ground (arith, rw same at h) in
      subst (λ z. (b ∷ text) ≡ z ++ suffix) empty (eq_of (b ∷ text) suffix same)
  | inr other ↦ elim (Option-cases (strip_suffix suffix text)) [
    | inl gone ↦ absurd (cc (rw (other, gone) at h))
    | inr (rest, found) ↦
        let longer : b ∷ rest ≡ front = ground (arith, rw (other, found) at h) in
        subst (λ z. (b ∷ text) ≡ z ++ suffix) longer
          (ap (λ z. b ∷ z) (strip_suffix-some suffix text found))
  ]
]

length-append_front : (front suffix : Text) (b : ℕ) → ((b ∷ (front ++ suffix)) == suffix) ≡ false
length-append_front front suffix b = elim (Bool-cases ((b ∷ (front ++ suffix)) == suffix)) [
  | inr other ↦ other
  | inl same ↦
      let sizes = ap length (eq_of (b ∷ (front ++ suffix)) suffix same) in
      absurd (omega (arith, sizes, length-append front suffix))
]

strip_suffix-append : (front suffix : Text) → strip_suffix suffix (front ++ suffix) ≡ some front
unfolding strip_suffix list_beq
strip_suffix-append [] [] = refl
strip_suffix-append [] (b ∷ suffix) = rw (eq_refl (b ∷ suffix)) refl
strip_suffix-append (b ∷ front) suffix =
    rw (length-append_front front suffix b, strip_suffix-append front suffix) refl

-- A text that ends with a dot and is longer than it is a filled text and that dot.
ends_with-split :
    (text : Text)
    → ends_with b'.' text ≡ true
    → ltb 1 (length text) ≡ true
    → (label : Text) × (label ≢ []) × (text ≡ label ++ (b'.' ∷ []))
unfolding ends_with
ends_with-split [] h k = absurd (cc h)
ends_with-split (b ∷ []) h k = absurd (ground (arith, k))
ends_with-split (b ∷ c ∷ []) h k =
    let dot : c ≡ b'.' = ground (arith, h) in (b ∷ [], λ p. cc p, rw dot refl)
ends_with-split (b ∷ c ∷ d ∷ text) h k =
    let (label, filled, same) = ends_with-split (c ∷ d ∷ text) h (ground arith) in
    (b ∷ label, λ p. cc p, ap (λ z. b ∷ z) same)

ends_with-append : (text : Text) (byte : ℕ) → ends_with byte (text ++ (byte ∷ [])) ≡ true
unfolding ends_with
ends_with-append [] byte = ground arith
ends_with-append (b ∷ []) byte = ground arith
ends_with-append (b ∷ c ∷ text) byte = ends_with-append (c ∷ text) byte

-- What a pattern covers: its own name, or every name with at least one label before it.
abbrev pub Covers : DnsPattern → Text → Type 0
Covers pattern name =
    ((pattern.descendants ≡ false) × (name ≡ pattern.ascii))
    ⊎ ((pattern.descendants ≡ true)
        × ((label : Text) × (label ≢ []) × (name ≡ label ++ (b'.' ∷ pattern.ascii))))

labels-Covers :
    (pattern : DnsPattern) (ascii : Text)
    → pattern.descendants ≡ true
    → is_labels (strip_suffix pattern.ascii ascii) ≡ true
    → Covers pattern ascii
labels-Covers pattern ascii d h = elim (Option-cases (strip_suffix pattern.ascii ascii)) [
  | inl gone ↦ absurd (cc (rw gone at h))
  | inr (front, found) ↦
      let inside : (ends_with b'.' front && ltb 1 (length front)) ≡ true = rw found at h in
      let (dot, long) = &&-true (ends_with b'.' front) (ltb 1 (length front)) inside in
      let (label, filled, same) = ends_with-split front dot long in
      let whole : ascii ≡ (label ++ (b'.' ∷ [])) ++ pattern.ascii =
        strip_suffix-some pattern.ascii ascii found ∙ ap (λ z. z ++ pattern.ascii) same in
      inr (d, (label, filled, whole ∙ append_assoc label (b'.' ∷ []) pattern.ascii))
]

labels_long : (label : Text) → label ≢ [] → ltb 1 (length (label ++ (b'.' ∷ []))) ≡ true
labels_long [] h = absurd (h refl)
labels_long (b ∷ label) h = let n = length-append label (b'.' ∷ []) in ground (arith, n)

Covers-labels :
    (pattern : DnsPattern) (ascii label : Text)
    → label ≢ []
    → ascii ≡ label ++ (b'.' ∷ pattern.ascii)
    → is_labels (strip_suffix pattern.ascii ascii) ≡ true
Covers-labels pattern ascii label filled same =
    let whole : ascii ≡ (label ++ (b'.' ∷ [])) ++ pattern.ascii =
      same ∙ sym (append_assoc label (b'.' ∷ []) pattern.ascii) in
    rw
      (
        whole,
        strip_suffix-append (label ++ (b'.' ∷ [])) pattern.ascii,
        ends_with-append label b'.',
        labels_long label filled,
      )
      refl

-- A pattern matches a name exactly when the name normalizes, to no host name of kakoi itself, and the
-- pattern covers the normal form: it is the pattern's own name, or, when the pattern is for descendants,
-- that name behind at least one byte and a dot.
pub name_matches-decides :
    (to_ascii : Text → Option Text) (pattern : DnsPattern) (name : Text)
    → (name_matches to_ascii pattern name ≡ true) ↔ (
        (ascii : Text) × (normalize to_ascii name ≡ ok ascii)
        × (contains host_names ascii ≡ false)
        × Covers pattern ascii)
unfolding name_matches
name_matches-decides to_ascii pattern name =
    (λ h. there_is h, λ (ascii, n, free, covers). back ascii n free covers)
  where
    judged :
        (ascii : Text)
        → (if pattern.descendants
            then is_labels (strip_suffix pattern.ascii ascii)
            else ascii == pattern.ascii)
          ≡ true
        → Covers pattern ascii
    judged ascii h = elim (Bool-cases pattern.descendants) [
      | inl d ↦ labels-Covers pattern ascii d (rw d at h)
      | inr own ↦ inl (own, eq_of ascii pattern.ascii (rw own at h))
    ]

    there_is :
        name_matches to_ascii pattern name ≡ true
        → (ascii : Text) × (normalize to_ascii name ≡ ok ascii)
          × (contains host_names ascii ≡ false)
          × Covers pattern ascii
    there_is h = elim (Result-cases (normalize to_ascii name)) [
      | inl (e, bad) ↦ absurd (cc (rw (bad, name_matches) at h))
      | inr (ascii, good) ↦ elim (Bool-cases (contains host_names ascii)) [
        | inl host ↦ absurd (cc (rw (good, host, name_matches) at h))
        | inr free ↦ (ascii, good, free, judged ascii (rw (good, free, name_matches) at h))
      ]
    ]

    back :
        (ascii : Text)
        → normalize to_ascii name ≡ ok ascii
        → contains host_names ascii ≡ false
        → Covers pattern ascii
        → name_matches to_ascii pattern name ≡ true
    back ascii n free (inl (own, same)) =
        rw (n, free, own, name_matches) (rw same (eq_refl pattern.ascii))
    back ascii n free (inr (d, (label, filled, same))) =
        rw (n, free, d, name_matches) (Covers-labels pattern ascii label filled same)
