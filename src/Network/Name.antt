-- ===== src/Network/Name.antt =====
-- crates/kakoi-policy/src/network/dns_name.rs. The idna crate is a parameter: `to_ascii` is
-- `idna::domain_to_ascii_strict`, with `none` for its error.
pub mod Laws
use kakoi.Prelude.{
  ℕ, Bool, true, false, not, ◌&&◌, ◌||◌, Option, none, some, List, [], ◌∷◌, ◌++◌, any, length,
  contains, if◌then◌else◌, eqb, ltb, Result, ok, err, ◌==◌, nat_eq, list_eq,
}
use kakoi.Policy.{Text, codes}
use kakoi.Guard.Words.{begins_with}
use kakoi.Network.{IpFamily, ipv4, ipv6}

pub record DnsPattern : Type 0 where
  pub ascii : Text
  pub descendants : Bool

pub data NameError : Type 0 where
  invalid_name : Text → NameError
  reserved_name : NameError

abbrev pub host_names : List Text
host_names = codes "host-v4.kakoi.internal" ∷ codes "host-v6.kakoi.internal" ∷ []

-- `str::contains` of a pattern.
unfoldable holds_text : Text → Text → Bool
unfolding begins_with
holds_text pattern [] = begins_with pattern []
holds_text pattern (b ∷ text) = begins_with pattern (b ∷ text) || holds_text pattern text

-- The two characters `*` and U+FF0A, in UTF-8.
abbrev has_star : Text → Bool
has_star name = holds_text (b'*' ∷ []) name || holds_text (239 ∷ 188 ∷ 138 ∷ []) name

-- `str::strip_suffix`
unfoldable pub strip_suffix : Text → Text → Option Text
strip_suffix suffix [] = if [] == suffix then some [] else none
strip_suffix suffix (b ∷ text) =
    let rest = strip_suffix suffix text in
    if (b ∷ text) == suffix
    then some []
    else elim rest [ none ↦ none | some front ↦ some (b ∷ front) ]

-- `str::ends_with` of one byte.
unfoldable pub ends_with : ℕ → Text → Bool
ends_with byte [] = false
ends_with byte (b ∷ []) = eqb b byte
ends_with byte (b ∷ c ∷ text) = ends_with byte (c ∷ text)

-- The name without a final dot.
unfoldable without_dot : Text → Text
unfolding strip_suffix
without_dot name = elim (strip_suffix (b'.' ∷ []) name) [ none ↦ name | some front ↦ front ]

-- The loopback family that a normalized name stands for.
abbrev family_of : Text → Option IpFamily
family_of name =
    if name == codes "host-v4.kakoi.internal"
    then some ipv4
    else if name == codes "host-v6.kakoi.internal"
    then some ipv6
    else none

-- The part of a name in front of `suffix`: some labels, each with its dot.
abbrev pub is_labels : Option Text → Bool
is_labels none = false
is_labels (some prefix) = ends_with b'.' prefix && ltb 1 (length prefix)

-- `strip_prefix("*.")`, with whether it was there.
abbrev star_prefix : Text → Text × Bool
star_prefix [] = ([], false)
star_prefix (a ∷ []) = (a ∷ [], false)
star_prefix (a ∷ b ∷ rest) =
    if eqb a b'*' && eqb b b'.' then (rest, true) else (a ∷ b ∷ rest, false)

module _ (to_ascii : Text → Option Text) where
  unfoldable pub normalize : Text → Result NameError Text
  unfolding holds_text without_dot ends_with
  normalize name =
      if name == [] || has_star name
      then err (invalid_name name)
      else elim (to_ascii (without_dot name)) [
        | none ↦ err (invalid_name (without_dot name))
        | some ascii ↦
            if ascii == [] || ends_with b'.' ascii
            then err (invalid_name (without_dot name))
            else ok ascii
      ]

  unfoldable reserved_host : Text → Option IpFamily
  reserved_host name = elim (normalize name) [ err e ↦ none | ok ascii ↦ family_of ascii ]

  -- `DnsPattern::matches`
  unfoldable pub name_matches : DnsPattern → Text → Bool
  unfolding strip_suffix ends_with
  name_matches pattern name = elim (normalize name) [
    | err e ↦ false
    | ok ascii ↦
        if contains host_names ascii
        then false
        else if pattern.descendants
        then is_labels (strip_suffix pattern.ascii ascii)
        else ascii == pattern.ascii
  ]

  -- `DnsPattern::from_str`
  unfoldable pub pattern_from : Text → Result NameError DnsPattern
  pattern_from input =
      let (name, descendants) = star_prefix input in
      elim (normalize name) [
        | err e ↦ err e
        | ok ascii ↦
            if not descendants && contains host_names ascii
            then err reserved_name
            else ok (record { ascii = ascii; descendants = descendants })
      ]
