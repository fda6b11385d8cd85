-- ===== src/Mounts/Covering.antt =====
-- `covering_item` and `hidden` of crates/kakoi-plan/src/mounts.rs: on items in byte order the last
-- item over a path is the innermost one.
use kakoi.Prelude.{
  ◌≡◌, sym, ◌∙◌, subst, Option, none, some, List, [], ◌∷◌, Bool, true, false, rfind, ◌==◌, In, here,
  there, All-In, IsSorted, rfind-none, rfind-some, Bool-cases, Option-cases, inl, inr, arith, ap,
}
use kakoi.Paths.{FilePath, starts_with, byte_le}
use kakoi.Paths.Prefixes.{starts_with_comparable, starts_with_refl, starts_with_antisymm}
use kakoi.Paths.Order.{byte_le-starts_with}
use kakoi.Policy.{hide, directive_eq, directive_beq}
use kakoi.Mounts.{ResolvedItem}
use kakoi.Mounts.Resolve.{item_le}

unfoldable pub covering_item : List ResolvedItem → FilePath → Option ResolvedItem
unfolding rfind starts_with
covering_item items path = rfind (λ item. starts_with path item.real) items

unfoldable pub hidden : FilePath → List ResolvedItem → Bool
unfolding covering_item
hidden path items = elim (covering_item items path) [
  | none ↦ false
  | some item ↦ item.directive == hide
]

-- An item that stands no earlier than another, both over one path, lies inside it.
later_is_inner :
    (path : FilePath) (item other : ResolvedItem)
    → byte_le other.real item.real ≡ true
    → starts_with path item.real ≡ true
    → starts_with path other.real ≡ true
    → starts_with item.real other.real ≡ true
later_is_inner path item other before over h =
    elim (starts_with_comparable path item.real other.real over h) [
      | inl within ↦ within
      | inr around ↦
          subst (λ z. starts_with item.real z ≡ true)
            (sym (byte_le-starts_with other.real item.real around before))
            (starts_with_refl item.real)
    ]

-- Of the items over `path`, the one that covers it lies inside all the others.
covering_item-innermost :
    (items : List ResolvedItem) (path : FilePath) {item other : ResolvedItem}
    → IsSorted item_le items
    → covering_item items path ≡ some item
    → In other items
    → starts_with path other.real ≡ true
    → starts_with item.real other.real ≡ true
unfolding covering_item
covering_item-innermost [] path s e m h = elim m [ ]
covering_item-innermost (x ∷ xs) path {item} {other} s e m h =
    elim (Option-cases (covering_item xs path)) [
      | inl none_below ↦ elim m [
        | here q ↦ elim (Bool-cases (starts_with path x.real)) [
          | inl over ↦
              let same : x ≡ item = ground arith in rw (← same, q) (starts_with_refl x.real)
          | inr aside ↦ cc (ap (λ (z : ResolvedItem). starts_with path z.real) q)
        ]
        | there m' ↦ cc (rfind-none (λ z. starts_with path z.real) xs none_below m')
      ]
      | inr (y, found) ↦
          let same : y ≡ item = ground arith in
          let cover : covering_item xs path ≡ some item = found ∙ ap some same in
          let (m', over) = rfind-some (λ z. starts_with path z.real) xs cover in
          elim m [
            | here q ↦
                later_is_inner path item other
                  (subst (λ (z : ResolvedItem). byte_le z.real item.real ≡ true) (sym q)
                    (All-In (λ z. item_le x z ≡ true) xs s.0 m'))
                  over h
            | there m'' ↦ covering_item-innermost xs path s.1 cover m'' h
          ]
    ]

-- An item covers the path where it is mounted, or another at the same place does.
covering_item-at :
    (items : List ResolvedItem) {g : ResolvedItem}
    → IsSorted item_le items
    → In g items
    → (item : ResolvedItem) × In item items
      × (covering_item items g.real ≡ some item)
      × (item.real ≡ g.real)
unfolding covering_item
covering_item-at items {g} s m = elim (Option-cases (covering_item items g.real)) [
  | inl e ↦ cc (rfind-none (λ z. starts_with g.real z.real) items e m, starts_with_refl g.real)
  | inr (item, e) ↦
      let (m', over) = rfind-some (λ z. starts_with g.real z.real) items e in
      (
        item,
        m',
        e,
        starts_with_antisymm item.real g.real
            (covering_item-innermost items g.real s e m (starts_with_refl g.real)) over,
      )
]

-- Where every item at a place is a `hide`, the place is hidden.
pub hidden-at :
    (items : List ResolvedItem) {g : ResolvedItem}
    → IsSorted item_le items
    → In g items
    → ((item : ResolvedItem) → In item items → item.real ≡ g.real → item.directive ≡ hide)
    → hidden g.real items ≡ true
unfolding hidden directive_beq
hidden-at items s m all_hide =
    let (item, m', e, q) = covering_item-at items s m in rw (e, hidden) (rw (all_hide item m' q))
