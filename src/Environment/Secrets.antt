-- ===== src/Environment/Secrets.antt =====
-- crates/kakoi-plan/src/isolated_env.rs: what becomes of the secrets, and of the host's variables.
use kakoi.Prelude.{
  ℕ, ◌≤◌, true, false, Option, none, some, List, [], ◌∷◌, get, any, any-of, length, eqb, ltb, ok,
  ok_same, Result-cases, ◌==◌, eq_refl, ne_of, nat_eq, list_eq, ◌≡◌, ◌≢◌, refl, sym, ◌∙◌, ap, subst,
  inl, inr, arith, Bool-cases, In, here, there, map-In, All, Distinct,
}
use kakoi.Policy.{Text, PolicyPath}
use kakoi.Environment.Maps.{remove, get-insert, get-insert_other, get-remove, get-remove_other}
use kakoi.Environment.Texts.{strip_line_end}
use kakoi.Environment.{
  Values, EnvPolicy, SecretFile, absent, bytes, unreadable, read_failure, file_of, Applied,
  secret_value, apply_secret, apply_secrets, apply_instead_of, before_secrets, Assembled,
  assemble_environment, shown, secret_value_limit,
}
use kakoi.Environment.Laws.{written_later, later_stages-get}

-- The value that a file's bytes give: the line end is gone, it is not empty, holds no NUL byte, and is
-- at most 64 KiB long.
pub record IsValue (content : List ℕ) (value : Text) : Type 0 where
  pub stripped : value ≡ strip_line_end content
  pub filled : value ≢ []
  pub no_nul : any (λ b. eqb b 0) value ≡ false
  pub short : length value ≤ secret_value_limit

secret_value-IsValue :
    (name : Text) (content : List ℕ) {value : Text}
    → secret_value name content ≡ ok value
    → IsValue content value
unfolding secret_value
secret_value-IsValue name content {value} h =
    let v = strip_line_end content in
    elim (Bool-cases (v == [])) [
      | inl empty ↦ absurd (cc (rw (empty, secret_value) at h))
      | inr filled ↦ elim (Bool-cases (any (λ b. eqb b 0) v)) [
        | inl nul ↦ absurd (cc (rw (filled, nul, secret_value) at h))
        | inr no_nul ↦ elim (Bool-cases (ltb secret_value_limit (length v))) [
          | inl long ↦ absurd (cc (rw (filled, no_nul, long, secret_value) at h))
          | inr short ↦
              subst (IsValue content) (ok_same (rw (filled, no_nul, short, secret_value) at h))
                (record {
                  stripped = refl;
                  filled = ne_of v [] filled;
                  no_nul = no_nul;
                  short = ground (arith, short);
                })
        ]
      ]
    ]

-- What a secret's variable holds, by what its file is: nothing when the file is absent, a valid value
-- when the file was read. A file that cannot be read has no outcome.
pub data SecretOutcome : SecretFile → Option Text → Type 0 where
  left_unset : SecretOutcome absent none
  holds :
      {content : List ℕ} {value : Text}
      → IsValue content value
      → SecretOutcome (bytes content) (some value)

-- The names that must be hidden.
abbrev Marked : Text → SecretFile → List Text → Type 0
Marked name (bytes content) names = In name names
Marked name _ names = Unit

record Step (name : Text) (file : SecretFile) (state next : Applied) : Type 0 where
  outcome : SecretOutcome file (get name next.values)
  others : (k : Text) → k ≢ name → get k next.values ≡ get k state.values
  marked : Marked name file next.secret_names
  grows : (k : Text) → In k state.secret_names → In k next.secret_names

apply_secret-Step :
    (name : Text) (path : PolicyPath) (file : SecretFile) (state : Applied) {next : Applied}
    → apply_secret name path file state ≡ ok next
    → Step name file state next
unfolding apply_secret
apply_secret-Step name path absent state h = subst (Step name absent state) (ok_same h) (record {
  outcome = rw (get-remove name state.values) left_unset;
  others = λ k n. get-remove_other k name state.values n;
  marked = tt;
  grows = λ k m. m;
})
apply_secret-Step name path (bytes content) state h =
    elim (Result-cases (secret_value name content)) [
      | inl (e, bad) ↦ absurd (cc (rw (bad, apply_secret) at h))
      | inr (value, good) ↦
          subst (Step name (bytes content) state) (ok_same (rw (good, apply_secret) at h)) (record {
            outcome =
                rw (get-insert name value (remove name state.values))
                  (holds (secret_value-IsValue name content good));
            others = λ k n.
                get-insert_other k name value (remove name state.values) n
                ∙ get-remove_other k name state.values n;
            marked = here refl;
            grows = λ k m. there m;
          })
    ]
apply_secret-Step name path (unreadable reason) state h = absurd (cc h)
apply_secret-Step name path (read_failure reason cause) state h = absurd (cc h)

-- The names of a list of secrets.
abbrev pub secret_name : Text × PolicyPath → Text
secret_name s = s.0

-- The loop leaves a variable that is no secret as it is.
pub apply_secrets-others :
    (name : Text) (secrets : List (Text × PolicyPath)) (files : List (Text × SecretFile))
    (state : Applied) {final : Applied}
    → All (λ s. name ≢ secret_name s) secrets
    → apply_secrets secrets files state ≡ ok final
    → get name final.values ≡ get name state.values
unfolding apply_secrets
apply_secrets-others name [] files state n h =
    ap (λ (z : Applied). get name z.values) (sym (ok_same h))
apply_secrets-others name ((other, path) ∷ more) files state n h =
    elim (Result-cases (apply_secret other path (file_of (get other files)) state)) [
      | inl (e, bad) ↦ absurd (cc (rw (bad, apply_secrets) at h))
      | inr (next, good) ↦
          apply_secrets-others name more files next n.1 (rw (good, apply_secrets) at h)
          ∙ (apply_secret-Step other path (file_of (get other files)) state good).others name n.0
    ]

apply_secrets-outcome :
    (name : Text) (path : PolicyPath) (secrets : List (Text × PolicyPath))
    (files : List (Text × SecretFile)) (state : Applied) {final : Applied}
    → Distinct secret_name secrets
    → In (name, path) secrets
    → apply_secrets secrets files state ≡ ok final
    → SecretOutcome (file_of (get name files)) (get name final.values)
unfolding apply_secrets
apply_secrets-outcome name path [] files state d m h = elim m [ ]
apply_secrets-outcome name path ((other, p) ∷ more) files state d m h =
    elim (Result-cases (apply_secret other p (file_of (get other files)) state)) [
      | inl (e, bad) ↦ absurd (cc (rw (bad, apply_secrets) at h))
      | inr (next, good) ↦
          let rest = rw (good, apply_secrets) at h in
          elim m [
            | here same ↦
                let key : name ≡ other = ap secret_name same in
                let step = apply_secret-Step other p (file_of (get other files)) state good in
                let kept = apply_secrets-others other more files next d.0 rest in
                rw (key, kept) step.outcome
            | there m' ↦ apply_secrets-outcome name path more files next d.1 m' rest
          ]
    ]

apply_secrets-grows :
    (name : Text) (secrets : List (Text × PolicyPath)) (files : List (Text × SecretFile))
    (state : Applied) {final : Applied}
    → In name state.secret_names
    → apply_secrets secrets files state ≡ ok final
    → In name final.secret_names
unfolding apply_secrets
apply_secrets-grows name [] files state m h =
    subst (λ (z : Applied). In name z.secret_names) (ok_same h) m
apply_secrets-grows name ((other, path) ∷ more) files state m h =
    elim (Result-cases (apply_secret other path (file_of (get other files)) state)) [
      | inl (e, bad) ↦ absurd (cc (rw (bad, apply_secrets) at h))
      | inr (next, good) ↦
          apply_secrets-grows name more files next
            ((apply_secret-Step other path (file_of (get other files)) state good).grows name m)
            (rw (good, apply_secrets) at h)
    ]

apply_secrets-marked :
    (name : Text) (path : PolicyPath) (secrets : List (Text × PolicyPath))
    (files : List (Text × SecretFile)) (state : Applied) {content : List ℕ} {final : Applied}
    → In (name, path) secrets
    → file_of (get name files) ≡ bytes content
    → apply_secrets secrets files state ≡ ok final
    → In name final.secret_names
unfolding apply_secrets
apply_secrets-marked name path [] files state m f h = elim m [ ]
apply_secrets-marked name path ((other, p) ∷ more) files state {content} m f h =
    elim (Result-cases (apply_secret other p (file_of (get other files)) state)) [
      | inl (e, bad) ↦ absurd (cc (rw (bad, apply_secrets) at h))
      | inr (next, good) ↦
          let rest = rw (good, apply_secrets) at h in
          elim m [
            | here same ↦
                let key : name ≡ other = ap secret_name same in
                let step = apply_secret-Step other p (file_of (get other files)) state good in
                let file = subst (λ z. file_of (get z files) ≡ bytes content) key f in
                let marked : Marked other (bytes content) next.secret_names =
                  subst (λ z. Marked other z next.secret_names) file step.marked in
                apply_secrets-grows name more files next
                  (subst (λ z. In z next.secret_names) (sym key) marked) rest
            | there m' ↦ apply_secrets-marked name path more files next m' f rest
          ]
    ]

pub assembled_secrets :
    (policy : EnvPolicy) (host : Values) (files : List (Text × SecretFile)) (paths : List Text)
    {assembled : Assembled}
    → assemble_environment policy host files paths ≡ ok assembled
    → (applied : Applied) × (apply_secrets policy.secrets files (before_secrets policy host)
        ≡ ok applied)
unfolding assemble_environment
assembled_secrets policy host files paths h =
    elim (Result-cases (apply_secrets policy.secrets files (before_secrets policy host))) [
      | inl (e, bad) ↦ absurd (cc (rw (bad, assemble_environment) at h))
      | inr (applied, good) ↦ (applied, good)
    ]

-- When the environment is assembled, the variable of a secret, if no later stage writes that name, is
-- unset when the file is absent and holds the file's bytes without the line end when it was read; that
-- value is not empty, has no NUL byte and is at most 64 KiB long. No file was unreadable.
pub assemble-secret :
    (policy : EnvPolicy) (host : Values) (files : List (Text × SecretFile)) (paths : List Text)
    (name : Text) (path : PolicyPath) {assembled : Assembled}
    → Distinct secret_name policy.secrets
    → In (name, path) policy.secrets
    → written_later policy.instead_of paths name ≡ false
    → assemble_environment policy host files paths ≡ ok assembled
    → SecretOutcome (file_of (get name files)) (get name assembled.environment.values)
assemble-secret policy host files paths name path d m w h =
    let (applied, good) = assembled_secrets policy host files paths h in
    let (same, names) = later_stages-get name policy host files paths w good h in
    rw same
      (apply_secrets-outcome name path policy.secrets files (before_secrets policy host) d m good)

-- When the environment is assembled, what `shown` lists for the name of a secret whose file was read
-- never has a value.
pub shown-hides_secret :
    (policy : EnvPolicy) (host : Values) (files : List (Text × SecretFile)) (paths : List Text)
    (name : Text) (path : PolicyPath) {content : List ℕ} {assembled : Assembled}
    {value : Option Text}
    → In (name, path) policy.secrets
    → file_of (get name files) ≡ bytes content
    → assemble_environment policy host files paths ≡ ok assembled
    → In (name, value) (shown assembled.environment)
    → value ≡ none
unfolding assemble_environment shown
shown-hides_secret policy host files paths name path {content} {assembled} {value} m f h n =
    let (applied, good) = assembled_secrets policy host files paths h in
    let marked =
      apply_secrets-marked name path policy.secrets files (before_secrets policy host) m f good in
    let names : assembled.environment.secret_names ≡ applied.secret_names =
      names_kept applied good in
    let (entry, i, same) = map-In _ assembled.environment.values n in
    let key : name ≡ entry.0 = ap (λ (z : Text × Option Text). z.0) same in
    let hidden : any (λ k. k == entry.0) assembled.environment.secret_names ≡ true =
      any-of (λ k. k == entry.0) assembled.environment.secret_names
        (subst (In name) (sym names) marked) (rw key (eq_refl entry.0)) in
    ap (λ (z : Text × Option Text). z.1) same ∙ rw hidden refl
  where
    names_kept :
        (applied : Applied)
        → apply_secrets policy.secrets files (before_secrets policy host) ≡ ok applied
        → assembled.environment.secret_names ≡ applied.secret_names
    names_kept applied good =
        elim (Result-cases (apply_instead_of policy.instead_of applied.values)) [
          | inl (e, bad) ↦ absurd (cc (rw (good, bad, assemble_environment) at h))
          | inr (values, made) ↦
              ap (λ (z : Assembled). z.environment.secret_names)
                (sym (ok_same (rw (good, made, assemble_environment) at h)))
        ]
