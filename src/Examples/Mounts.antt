-- ===== src/Examples/Mounts.antt =====
-- The theorems on mounts at the scenario.
use kakoi.Prelude.{◌≡◌, refl, [], ok, here, true, IsSorted, Distinct, list_beq, list_eq}
use kakoi.Paths.{name_beq, name_eq}
use kakoi.Policy.{codes}
use kakoi.Mounts.{entry, real_and_kind}
use kakoi.Mounts.Resolve.{resolve_written, item_le}
use kakoi.Mounts.Resolve.Laws.{resolve_written-ordered, item_real}
use kakoi.Mounts.Generate.{generate}
use kakoi.Mounts.Generate.Outcome.{generate-hides_secret}
use kakoi.Mounts.Covering.{hidden}
use kakoi.Examples.Scenario.{expanded, facts, variables, resolved, generated, key_file}

resolved_ok : resolve_written expanded facts ≡ ok resolved
unfolding resolved resolve_written list_beq name_beq entry real_and_kind
resolved_ok = refl

generated_ok : generate resolved expanded [] variables facts [] ≡ ok generated
unfolding generated resolved generate list_beq name_beq entry real_and_kind
generated_ok = refl

resolve_written-ordered_example :
    IsSorted item_le resolved.items × Distinct item_real resolved.items
resolve_written-ordered_example = resolve_written-ordered expanded facts resolved_ok

generate-hides_secret_example : hidden key_file generated.items ≡ true
unfolding entry real_and_kind list_beq name_beq
generate-hides_secret_example =
    generate-hides_secret expanded [] variables facts [] resolved (codes "k") key_file resolved_ok
      generated_ok (here refl) refl
