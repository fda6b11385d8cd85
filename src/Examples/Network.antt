-- ===== src/Examples/Network.antt =====
-- The theorems on the network settings at small settings.
use kakoi.Prelude.{
  true, false, Option, some, [], ◌∷◌, ok, err, ◌≡◌, refl, ◌↔◌, contains, In, get, option_beq,
  option_eq, list_eq, nat_eq,
}
use kakoi.Policy.{Text, codes}
use kakoi.Network.{tcp, udp, ipv4, ipv6, protocol_beq, family_beq}
use kakoi.Network.Publish.{
  FixedPublication, conflicting, merge_publications, merge_entries, merge_entry, nth,
  publication_beq,
}
use kakoi.Network.Publish.Sound.{Conflict}
use kakoi.Network.Publish.Laws.{Merged, merge_publications-Merged}
use kakoi.Network.Publish.Refused.{merge_publications-Conflict}
use kakoi.Network.Name.{DnsPattern, name_matches, normalize, host_names}
use kakoi.Network.Name.Laws.{Covers, name_matches-decides}
use kakoi.Network.Address.{IpNetwork, masked, network_contains}
use kakoi.Network.Address.Laws.{SameStart, network_contains-decides}
use kakoi.Net.Leases.{v4, to_canonical}

abbrev web : FixedPublication
web = record { protocol = tcp; port = 80; host_port = 8080; family = ipv4 }

abbrev web_other : FixedPublication
web_other = record { protocol = tcp; port = 81; host_port = 8080; family = ipv4 }

abbrev name_server : FixedPublication
name_server = record { protocol = udp; port = 53; host_port = 5353; family = ipv6 }

merged : merge_publications (web ∷ name_server ∷ web ∷ []) ≡ ok (web ∷ name_server ∷ [])
unfolding merge_publications merge_entries merge_entry nth publication_beq protocol_beq family_beq
    get option_beq option_eq
merged = refl

merge_publications-Merged_example : Merged (web ∷ name_server ∷ web ∷ []) (web ∷ name_server ∷ [])
merge_publications-Merged_example = merge_publications-Merged (web ∷ name_server ∷ web ∷ []) merged

refused : merge_publications (web ∷ web_other ∷ []) ≡ err (conflicting web_other)
unfolding merge_publications merge_entries merge_entry nth publication_beq protocol_beq family_beq
    get option_beq option_eq
refused = refl

merge_publications-Conflict_example :
    (entry : FixedPublication) × In entry (web ∷ web_other ∷ [])
    × (conflicting web_other ≡ conflicting entry)
    × Conflict (web ∷ web_other ∷ []) entry
merge_publications-Conflict_example = merge_publications-Conflict (web ∷ web_other ∷ []) refused

-- Names that are ASCII already.
abbrev same_text : Text → Option Text
same_text name = some name

abbrev example_pattern : DnsPattern
example_pattern = record { ascii = codes "example.com"; descendants = true }

name_matches-decides_example :
    (name_matches same_text example_pattern (codes "www.example.com.") ≡ true) ↔ (
      (ascii : Text) × (normalize same_text (codes "www.example.com.") ≡ ok ascii)
      × (contains host_names ascii ≡ false)
      × Covers example_pattern ascii)
name_matches-decides_example =
    name_matches-decides same_text example_pattern (codes "www.example.com.")

-- 10.0.0.0/8 and 10.1.2.3.
abbrev ten : IpNetwork
ten = record { address = v4 167772160; prefix = 8 }

clean : masked (v4 167772160) 8 ≡ v4 167772160
unfolding masked
clean = refl

network_contains-decides_example :
    (network_contains ten (v4 167838211) ≡ true)
    ↔ SameStart (v4 167772160) 8 (to_canonical (v4 167838211))
network_contains-decides_example = network_contains-decides ten (v4 167838211) clean
