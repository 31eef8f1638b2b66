-- ===== src/Order/Store/Rows.antt =====
-- What the statements do row by row.
use titan_explorer.Base.{
  String, ◌≡◌, refl, Bool, true, false, some, List, [], ◌∷◌, arith, eq_iff, ◌⊎◌, inl, inr,
  if◌then◌else◌,
}
use titan_explorer.Order.Types.{OrderStatus, Order}
use titan_explorer.Order.Store.{load_order_by_id, update_where, has_id_status}
use titan_explorer.Order.Store.Legal.{status_eq_sound}

-- Two tables with as many rows, related in their order.
pub data Rows (R : Order → Order → Type 0) : List Order → List Order → Type 0 where
  none_left : Rows R [] []
  row : {o o' : Order} {t t' : List Order} → R o o' → Rows R t t' → Rows R (o ∷ t) (o' ∷ t')

pub Rows-refl : {R : Order → Order → Type 0} (t : List Order) → ((o : Order) → R o o) → Rows R t t
Rows-refl [] r = none_left
Rows-refl (o ∷ t) r = row (r o) (Rows-refl t r)

pub Rows-trans :
    {P Q R : Order → Order → Type 0} {a b c : List Order}
    → Rows P a b
    → Rows Q b c
    → ((x y z : Order) → P x y → Q y z → R x z)
    → Rows R a c
Rows-trans none_left none_left f = none_left
Rows-trans (row p ps) (row q qs) f = row (f _ _ _ p q) (Rows-trans ps qs f)

pub Rows-map :
    {P Q : Order → Order → Type 0} {a b : List Order}
    → Rows P a b
    → ((x y : Order) → P x y → Q x y)
    → Rows Q a b
Rows-map none_left f = none_left
Rows-map (row p ps) f = row (f _ _ p) (Rows-map ps f)

-- A row under an UPDATE: as it was, or matched and set.
abbrev pub Updated : (Order → Bool) → (Order → Order) → Order → Order → Type 0
Updated p f o o' = (o' ≡ o) ⊎ ((p o ≡ true) × (o' ≡ f o))

Updated-row :
    (p : Order → Bool) (f : Order → Order) (o : Order) (b : Bool)
    → p o ≡ b
    → Updated p f o (if b then f o else o)
Updated-row p f o true e = inr (e, refl)
Updated-row p f o false e = inl refl

pub update_where-Rows :
    (p : Order → Bool) (f : Order → Order) (t : List Order)
    → Rows (Updated p f) t (update_where p f t)
unfolding update_where
update_where-Rows p f [] = none_left
update_where-Rows p f (o ∷ t) = row (Updated-row p f o (p o) refl) (update_where-Rows p f t)

-- The row that a read by id returns has this id.
pub load_order_by_id-id :
    (id : String) (t : List Order) {o : Order} → load_order_by_id id t ≡ some o → o.id ≡ id
unfolding load_order_by_id
load_order_by_id-id id [] e = cc
load_order_by_id-id id (x ∷ t) {o} e =
    ground (arith, eq_iff x.id id, load_order_by_id-id id t {o = o})

-- The condition of a compare-and-set update.
pub has_id_status-eq :
    (id : String) (s : OrderStatus) (o : Order)
    → has_id_status id s o ≡ true
    → (o.id ≡ id) × (o.status ≡ s)
has_id_status-eq id s o e = ground (arith, eq_iff o.id id, status_eq_sound o.status s)
