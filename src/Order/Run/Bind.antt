-- ===== src/Order/Run/Bind.antt =====
-- How programs in sequence, loops and the head of a pass relate the rows before and after.
use titan_explorer.Base.Program
use titan_explorer.Base.Program.{continue, run->>=}
use titan_explorer.Base.{
  suc, String, none, some, true, false, arith, Bool-cases, Option-cases, ◌≡◌, sym, ap, subst, ◌∙◌,
  List, [], ◌∷◌, All, List-cases, inl, inr,
}
use titan_explorer.Order.Prog.{Cmd, Prog, for_each, ◌>>=◌}
use titan_explorer.Order.Store.{Oracle, answer, effect, write, load_order_ids_by_status}
use titan_explorer.Order.Manager.{for_chain_orders}
use titan_explorer.Order.Store.Rows.{Rows, Rows-refl, Rows-trans}
use titan_explorer.Order.Types.{OrderStatus, Order, TokenOrder}
use titan_explorer.Order.Run.{World, after, handle, Outcome, returned, crashed, run}

-- A program from any world relates the rows before and after it.
abbrev pub Relates : {A : Type 0} → Oracle → (Order → Order → Type 0) → Prog A → Type 0
Relates w R p = (s : World) → Rows R s.orders (run w p s).1.orders

module _ (w : Oracle) (R : Order → Order → Type 0) (R_refl : (o : Order) → R o o)
    (R_trans : (x y z : Order) → R x y → R y z → R x z) where
  continue-Rows :
      {A B : Type 0} (f : A → Prog B) (t : List Order) (r : Outcome A × World)
      → ((a : A) → Relates w R (f a))
      → Rows R t r.1.orders
      → Rows R t (continue (handle w) f r).1.orders
  continue-Rows f t (returned a, s) h e = Rows-trans e (h a s) R_trans
  continue-Rows f t (crashed, s) h e = e

  pub >>=-Relates :
      {A B : Type 0} (p : Prog A) (f : A → Prog B)
      → Relates w R p
      → ((a : A) → Relates w R (f a))
      → Relates w R (p >>= f)
  >>=-Relates p f h k s =
      rw (run->>= (handle w) p f s) (continue-Rows f s.orders (run w p s) k (h s))

  pub for_each-Relates :
      {X : Type 0} (body : X → Prog (Unit {0})) (xs : List X)
      → All (λ x. Relates w R (body x)) xs
      → Relates w R (for_each body xs)
  unfolding for_each Program.run
  for_each-Relates body [] h s = Rows-refl s.orders R_refl
  for_each-Relates body (x ∷ xs) (h, hs) s =
      >>=-Relates (body x) _ h (λ _. for_each-Relates body xs hs) s

-- The ids that a pass over the orders in a status asks the chain about.
abbrev pub asked : OrderStatus → World → List String
asked status s = load_order_ids_by_status status s.orders

module _ (w : Oracle) (status : OrderStatus) (body : TokenOrder → Prog (Unit {0})) (s : World) where
  abbrev s₁ : World
  s₁ = after w (Cmd.load_order_ids_by_status status) s

  abbrev s₂ : World
  s₂ = after w (Cmd.get_orders (asked status s)) s₁

  s₁-orders : s₁.orders ≡ s.orders
  unfolding after effect write
  s₁-orders = ground arith

  s₂-orders : s₂.orders ≡ s.orders
  unfolding after effect write
  s₂-orders = ground arith

  unread : w.fails s.tick ≡ true → (run w (for_chain_orders status body) s).1 ≡ s₁
  unfolding Program.run for_chain_orders answer
  unread e = ground (arith, e)

  no_ids :
      w.fails s.tick ≡ false → asked status s ≡ [] → (run w (for_chain_orders status body) s).1 ≡ s₁
  unfolding Program.run for_chain_orders answer
  no_ids e f = ground (arith, e, f)

  no_answer :
      (id : String) (more : List String)
      → w.fails s.tick ≡ false
      → asked status s ≡ id ∷ more
      → w.chain (suc s.tick) (asked status s) ≡ none
      → (run w (for_chain_orders status body) s).1 ≡ s₂
  unfolding Program.run for_chain_orders answer after
  no_answer id more e f g = ground (arith, e, f, g)

  chain_answered :
      (id : String) (more : List String) (xs : List TokenOrder)
      → w.fails s.tick ≡ false
      → asked status s ≡ id ∷ more
      → w.chain (suc s.tick) (asked status s) ≡ some xs
      → run w (for_chain_orders status body) s ≡ run w (for_each body xs) s₂
  unfolding Program.run for_chain_orders answer after
  chain_answered id more xs e f g = ground (arith, e, f, g)

-- A pass relates the rows as the loop over the chain's answer does.
pub for_chain_orders-Rows :
    (w : Oracle) (R : Order → Order → Type 0) (status : OrderStatus)
    (body : TokenOrder → Prog (Unit {0})) (s : World)
    → ((o : Order) → R o o)
    → ((xs : List TokenOrder)
        → w.chain (suc s.tick) (asked status s) ≡ some xs
        → Relates w R (for_each body xs))
    → Rows R s.orders (run w (for_chain_orders status body) s).1.orders
for_chain_orders-Rows w R status body s R_refl loop = elim (Bool-cases (w.fails s.tick)) [
  | inl e ↦ same (unread w status body s e) (s₁-orders w status body s)
  | inr e ↦ elim (List-cases (asked status s)) [
    | inl f ↦ same (no_ids w status body s e f) (s₁-orders w status body s)
    | inr (id, more, f) ↦ elim (Option-cases (w.chain (suc s.tick) (asked status s))) [
      | inl g ↦ same (no_answer w status body s id more e f g) (s₂-orders w status body s)
      | inr (xs, g) ↦
          rw (chain_answered w status body s id more xs e f g)
            (from_s₂ xs (loop xs g (s₂ w status body s)))
    ]
  ]
]
  where
    same : {s' r : World} → r ≡ s' → s'.orders ≡ s.orders → Rows R s.orders r.orders
    same e f =
        subst (λ t. Rows R s.orders t) (sym (ap (λ v. v.orders) e ∙ f)) (Rows-refl s.orders R_refl)

    from_s₂ :
        (xs : List TokenOrder)
        → Rows R
            (s₂ w status body s).orders
            (run w (for_each body xs) (s₂ w status body s)).1.orders
        → Rows R s.orders (run w (for_each body xs) (s₂ w status body s)).1.orders
    from_s₂ xs h =
        subst (λ t. Rows R t (run w (for_each body xs) (s₂ w status body s)).1.orders)
          (s₂-orders w status body s) h
