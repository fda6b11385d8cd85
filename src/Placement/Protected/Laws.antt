-- ===== src/Placement/Protected/Laws.antt =====
-- What the checks on the protected paths decide.
use kakoi.Prelude.{
  ◌≡◌, sym, Option, none, some, List, map, Bool, false, ◌||◌, find, ok, >>-eq-ok, for_each,
  for_each-ok, In, here, there, find-none, Option-cases, inl, inr, arith, In-append, map-In, subst,
  ||-false,
}
use kakoi.Paths.{FilePath, starts_with}
use kakoi.Policy.{Text}
use kakoi.Diagnostic.{Role}
use kakoi.Mounts.{MountFacts, entry, ResolvedItem}
use kakoi.Mounts.Resolve.{identity}
use kakoi.Placement.{ProtectedPaths, protected_list, option_list}
use kakoi.Placement.Protected.{
  check_prefixes, check_nothing_writable_inside, check_shared_files, check_protected_paths,
}
use kakoi.Placement.Protected.Prefixes.{
  ConsultsNothingIn, IsFree, free-consults, check_prefixes_sound,
}

-- A writable item at or inside `place`, by its real path or as written.
check_nothing_writable_inside-ok :
    (place : FilePath) (role : Role) (writable : List ResolvedItem) (facts : MountFacts)
    {item : ResolvedItem}
    → check_nothing_writable_inside place role writable facts ≡ ok tt
    → In item writable
    → (starts_with item.real (identity (entry facts place) place) ≡ false)
      × (starts_with item.real place ≡ false)
unfolding check_nothing_writable_inside
check_nothing_writable_inside-ok place role writable facts {item} h m =
    let inside : ResolvedItem → Bool =
      λ i. starts_with i.real (identity (entry facts place) place) || starts_with i.real place in
    elim (Option-cases (find inside writable)) [
      | inl e ↦ ||-false _ _ (find-none inside writable e m)
      | inr (other, e) ↦ absurd (ground arith)
    ]

-- What an accepting run of `check_protected_paths` has checked.
record IsProtected (protected : ProtectedPaths) (writable : List ResolvedItem) (facts : MountFacts)
    : Type 0 where
  files :
      for_each (λ q. check_prefixes q Role.policy_file writable facts) protected.policy_files
      ≡ ok tt
  config : check_prefixes protected.config_dir Role.config_dir writable facts ≡ ok tt
  nothing_inside :
      check_nothing_writable_inside protected.config_dir Role.config_dir writable facts ≡ ok tt
  secret_files :
      for_each
        (λ (s : Text × FilePath). check_prefixes s.1 (Role.secret s.0) writable facts)
        protected.secrets
      ≡ ok tt
  prepended :
      for_each (λ q. check_prefixes q Role.path_prepend writable facts) protected.path_prepend
      ≡ ok tt
  shared : check_shared_files protected.shared_files writable facts ≡ ok tt

check_protected_paths-ok :
    (protected : ProtectedPaths) (writable : List ResolvedItem) (facts : MountFacts)
    → check_protected_paths protected writable facts ≡ ok tt
    → IsProtected protected writable facts
unfolding check_protected_paths
check_protected_paths-ok protected writable facts accepted =
    let (a, h₁) =
      >>-eq-ok
        (for_each (λ q. check_prefixes q Role.policy_file writable facts) protected.policy_files) _
        accepted in
    let (b, h₂) =
      >>-eq-ok (check_prefixes protected.config_dir Role.config_dir writable facts) _ h₁ in
    let (c, h₃) =
      >>-eq-ok (check_nothing_writable_inside protected.config_dir Role.config_dir writable facts) _
        h₂ in
    let (d, h₄) =
      >>-eq-ok
        (for_each (λ (s : Text × FilePath). check_prefixes s.1 (Role.secret s.0) writable facts)
          protected.secrets)
        _ h₃ in
    let (e, f) =
      >>-eq-ok
        (for_each (λ q. check_prefixes q Role.path_prepend writable facts) protected.path_prepend) _
        h₄ in
    record {
      files = a;
      config = b;
      nothing_inside = c;
      secret_files = d;
      prepended = e;
      shared = f;
    }

module _ (protected : ProtectedPaths) (writable : List ResolvedItem) (facts : MountFacts)
    (item : ResolvedItem) (accepted : check_protected_paths protected writable facts ≡ ok tt)
    (m : In item writable) where
  abbrev parts : IsProtected protected writable facts
  parts = check_protected_paths-ok protected writable facts accepted

  shared_files_sound :
      (place : Option FilePath) (p : FilePath)
      → check_shared_files place writable facts ≡ ok tt
      → In p (option_list place)
      → IsFree facts p item
  unfolding check_shared_files
  shared_files_sound none p h i = elim i [ ]
  shared_files_sound (some q) p h (there i) = elim i [ ]
  shared_files_sound (some q) p h (here e) =
      subst (λ z. IsFree facts z item) (sym e)
        (check_prefixes_sound q Role.shared_files writable facts item
          (>>-eq-ok (check_prefixes q Role.shared_files writable facts) _ h).0 m)

  -- Every protected path was checked.
  check_protected_paths-IsFree :
      (p : FilePath) → In p (protected_list protected) → IsFree facts p item
  unfolding protected_list
  check_protected_paths-IsFree p i = elim (In-append protected.policy_files _ i) [
    | inl a ↦
        check_prefixes_sound p Role.policy_file writable facts item
          (for_each-ok _ protected.policy_files parts.files a) m
    | inr (here e) ↦
        subst (λ z. IsFree facts z item) (sym e)
          (check_prefixes_sound protected.config_dir Role.config_dir writable facts item
            parts.config m)
    | inr (there j) ↦ elim (In-append (map (λ (name, q). q) protected.secrets) _ j) [
      | inl b ↦
          let (s, k, e) = map-In (λ (name, q). q) protected.secrets b in
          subst (λ z. IsFree facts z item) (sym e)
            (check_prefixes_sound s.1 (Role.secret s.0) writable facts item
              (for_each-ok _ protected.secrets parts.secret_files k) m)
      | inr l ↦ elim (In-append protected.path_prepend _ l) [
        | inl c ↦
            check_prefixes_sound p Role.path_prepend writable facts item
              (for_each-ok _ protected.path_prepend parts.prepended c) m
        | inr d ↦ shared_files_sound protected.shared_files p parts.shared d
      ]
    ]
  ]

  pub check_protected_paths_sound :
      (p : FilePath) → In p (protected_list protected) → ConsultsNothingIn facts p item
  check_protected_paths_sound p i = free-consults facts p item (check_protected_paths-IsFree p i)

  -- Nor does a writable item lie in the configuration directory.
  pub config_dir_sound :
      (starts_with item.real (identity (entry facts protected.config_dir) protected.config_dir)
        ≡ false)
      × (starts_with item.real protected.config_dir ≡ false)
  config_dir_sound =
      check_nothing_writable_inside-ok protected.config_dir Role.config_dir writable facts
        parts.nothing_inside m

  pub shared_files_inside_sound :
      (place : FilePath)
      → protected.shared_files ≡ some place
      → (starts_with item.real (identity (entry facts place) place) ≡ false)
        × (starts_with item.real place ≡ false)
  unfolding check_shared_files
  shared_files_inside_sound place e =
      let h : check_shared_files (some place) writable facts ≡ ok tt =
        subst (λ z. check_shared_files z writable facts ≡ ok tt) e parts.shared in
      check_nothing_writable_inside-ok place Role.shared_files writable facts
        (>>-eq-ok (check_prefixes place Role.shared_files writable facts) _ h).1 m
