-- ===== src/Order/Store/Legal.antt =====
-- The statements that move rows only along the status graph, and what they do to the table.
use titan_explorer.Base.{
  ◌≡◌, refl, Bool, true, false, List, [], ◌∷◌, ◌++◌, arith, Bool-cases, ◌⊎◌, inl, inr, ◌&&◌, ℕ,
  String, str_eq,
}
use titan_explorer.Base.Int.{ℤ, ltb_ℤ}
use titan_explorer.Order.Types.{OrderStatus, created, upgrade, status_eq, Order}
use titan_explorer.Order.Prog.{Cmd}
use titan_explorer.Order.Store.{
  Oracle, update_where, delete_where, write, effect, create_order, update_order_updated,
  update_order_info, update_order_status, update_order_hash, delete_orders_by_created,
}
use titan_explorer.Order.Store.Evolve.{
  ◌⟶◌, ◌⟶*◌, here, next, Descends, Descends-refl, Evolve, fresh, kept, dropped, Evolve-refl,
}

abbrev pub LegalCmd : Cmd → Type 0
LegalCmd (Cmd.create_order o) = (o.status ≡ created) ⊎ (o.status ≡ upgrade)
LegalCmd (Cmd.update_order_info o old) = old ⟶ o.status
LegalCmd (Cmd.update_order_status id s old) = old ⟶ s
LegalCmd _ = Unit

pub status_eq_sound : (a b : OrderStatus) → status_eq a b ≡ true → a ≡ b
status_eq_sound a b h = ground arith

update_where-Evolve :
    (p : Order → Bool) (f : Order → Order)
    → ((o : Order) → p o ≡ true → Descends o (f o))
    → (t : List Order) → Evolve t (update_where p f t)
unfolding update_where
update_where-Evolve p f h [] = fresh tt
update_where-Evolve p f h (o ∷ t) = elim (Bool-cases (p o)) [
  | inl e ↦ rw e (kept (h o e) (update_where-Evolve p f h t))
  | inr e ↦ rw e (kept (Descends-refl o) (update_where-Evolve p f h t))
]

delete_where-Evolve :
    (p : Order → Bool)
    → ((o : Order) → p o ≡ true → o.status ≡ created)
    → (t : List Order) → Evolve t (delete_where p t)
unfolding delete_where
delete_where-Evolve p h [] = fresh tt
delete_where-Evolve p h (o ∷ t) = elim (Bool-cases (p o)) [
  | inl e ↦ rw e (dropped (h o e) (delete_where-Evolve p h t))
  | inr e ↦ rw e (kept (Descends-refl o) (delete_where-Evolve p h t))
]

append-Evolve :
    (o : Order)
    → (created ⟶* o.status) ⊎ (upgrade ⟶* o.status)
    → (t : List Order) → Evolve t (t ++ (o ∷ []))
append-Evolve o n [] = fresh (n, tt)
append-Evolve o n (x ∷ t) = kept (Descends-refl x) (append-Evolve o n t)

-- A row that an update matches takes one step.
moved : (a : Bool) (s old new : OrderStatus) → (a && status_eq s old) ≡ true → old ⟶ new → s ⟶* new
moved true s old new e m = rw (status_eq_sound s old e) (next here m)
moved false s old new e m = absurd (cc)

-- The columns that the statements set; the others stay.
row_moves :
    (o : Order) (s : OrderStatus) (cpu storage duration price : ℤ) (hash : String)
    (expires updated : ℤ)
    → o.status ⟶* s
    → Descends o (record o {
      status = s;
      cpu_cores = cpu;
      storage_size = storage;
      duration = duration;
      price = price;
      hash = hash;
      expired_at = expires;
      updated_at = updated;
    })
row_moves o s cpu storage duration price hash expires updated p = record {
  same_id = refl;
  same_account = refl;
  same_workspace = refl;
  same_cluster = refl;
  same_ram = refl;
  same_created_at = refl;
  moves = p;
}

new_status : (s : OrderStatus) → (s ≡ created) ⊎ (s ≡ upgrade) → (created ⟶* s) ⊎ (upgrade ⟶* s)
new_status s (inl e) = inl (rw e here)
new_status s (inr e) = inr (rw e here)

created_row : (o : Order) (b : Bool) → (status_eq o.status created && b) ≡ true → o.status ≡ created
created_row o true e = status_eq_sound o.status created (ground arith)
created_row o false e = absurd (ground arith)

write-Evolve :
    (w : Oracle) (n : ℕ) (c : Cmd) (t : List Order) → LegalCmd c → Evolve t (write w n c t)
unfolding write create_order update_order_updated update_order_info update_order_status
    update_order_hash delete_orders_by_created
write-Evolve w n (Cmd.create_order o) t l = append-Evolve _ (new_status o.status l) t
write-Evolve w n (Cmd.update_order_updated id) t l =
    update_where-Evolve _ _ (λ o e. row_moves o _ _ _ _ _ _ _ _ here) t
write-Evolve w n (Cmd.update_order_info x old) t l =
    update_where-Evolve _ _
      (λ o e. row_moves o _ _ _ _ _ _ _ _ (moved (str_eq o.id x.id) o.status old x.status e l)) t
write-Evolve w n (Cmd.update_order_status id s old) t l =
    update_where-Evolve _ _
      (λ o e. row_moves o _ _ _ _ _ _ _ _ (moved (str_eq o.id id) o.status old s e l)) t
write-Evolve w n (Cmd.update_order_hash id h) t l =
    update_where-Evolve _ _ (λ o e. row_moves o _ _ _ _ _ _ _ _ here) t
write-Evolve w n (Cmd.delete_orders_by_created time) t l =
    delete_where-Evolve _ (λ o e. created_row o (ltb_ℤ o.created_at time) e) t
write-Evolve w n _ t l = Evolve-refl t

-- A legal call, failed or not, lets the table evolve.
pub effect-Evolve :
    (w : Oracle) (n : ℕ) (c : Cmd) (t : List Order) → LegalCmd c → Evolve t (effect w n c t)
unfolding effect
effect-Evolve w n c t l = elim (Bool-cases (w.fails n)) [
  | inl e ↦ rw e (Evolve-refl t)
  | inr e ↦ rw e (write-Evolve w n c t l)
]
