-- ===== src/Token/Run/History.antt =====
-- The pages of an account's receipts.
use titan_explorer.Base.Program
use titan_explorer.Base.Program.{Outcome, returned, crashed}
use titan_explorer.Base.{
  ℕ, zero, suc, ◌+◌, ◌*◌, ◌<◌, ◌≤◌, ◌≡◌, refl, sym, ap, ◌∙◌, String, false, Option, some, List, [],
  ◌∷◌, ◌++◌, All, Bool, ◌==◌, ltb, ◌&&◌, ◌||◌, length, take, drop, take-add, take-all, arith,
  if◌then◌else◌, if-holds, subst,
}
use titan_explorer.Base.Int.{
  ℤ, pos, int64_half, mul64, sub64, mul64-pos, sub64-pos, ltb_ℤ, to_uint64, to_uint64-pos,
}
use titan_explorer.Token.Prog.{ReceiveHistory}
use titan_explorer.Token.Store.{
  Tables, Oracle, of_account, sort_desc, insert_desc, select_history, answer, effect,
}
use titan_explorer.Token.Manager.{load_receive_history, history_offset}
use titan_explorer.Token.Run.{World, run}

-- The rows of an answer.
abbrev rows : Outcome (Option (List ReceiveHistory × ℕ)) → List ReceiveHistory
rows (returned (some (list, total))) = list
rows _ = []

-- The pages 1 to n, read one after the other, and the state after them.
abbrev pub pages_from : Oracle → String → ℕ → ℕ → World → List ReceiveHistory × World
pages_from w account size zero s = ([], s)
pages_from w account size (suc n) s =
    let (before, s') = pages_from w account size n s in
    let (page, s'') = run w (load_receive_history account (pos (suc n)) (pos size)) s' in
    (before ++ rows page, s'')

abbrev pub pages : Oracle → String → ℕ → ℕ → World → List ReceiveHistory
pages w account size n s = (pages_from w account size n s).0

-- No row of the list has the time of `r`.
abbrev Apart : ReceiveHistory → List ReceiveHistory → Type 0
Apart r = All (λ q. (r.created_at == q.created_at) ≡ false)

-- No two rows have the same time.
abbrev pub AreApart : List ReceiveHistory → Type 0
AreApart [] = Unit
AreApart (r ∷ t) = Apart r t × AreApart t

abbrev pub first_in : ReceiveHistory → ReceiveHistory → Bool
first_in r q = false

-- All receipts, the last first.
abbrev pub sorted : List ReceiveHistory → List ReceiveHistory
sorted = sort_desc first_in []

module _ (before : ReceiveHistory → ReceiveHistory → Bool) where
  length-insert_desc :
      (r : ReceiveHistory) (t : List ReceiveHistory)
      → length (insert_desc before r t) ≡ suc (length t)
  unfolding insert_desc
  length-insert_desc r [] = refl
  length-insert_desc r (q ∷ t) = ground (arith, length-insert_desc r t)

  length-sort_desc :
      (done t : List ReceiveHistory) → length (sort_desc before done t) ≡ length done + length t
  unfolding sort_desc
  length-sort_desc done [] = omega arith
  length-sort_desc done (r ∷ t) =
      omega (arith, length-sort_desc (insert_desc before r done) t, length-insert_desc r done)

  -- With no row of its time in the list, the place of a row is fixed.
  insert_desc_fixed :
      (r : ReceiveHistory) (t : List ReceiveHistory)
      → Apart r t
      → insert_desc before r t ≡ insert_desc first_in r t
  unfolding insert_desc
  insert_desc_fixed r [] h = refl
  insert_desc_fixed r (q ∷ t) (e, h) = ground (arith, e, insert_desc_fixed r t h)

  insert_desc-Apart :
      (x r : ReceiveHistory) (t : List ReceiveHistory)
      → (x.created_at == r.created_at) ≡ false
      → Apart x t
      → Apart x (insert_desc before r t)
  unfolding insert_desc
  insert_desc-Apart x r [] e h = (e, tt)
  insert_desc-Apart x r (q ∷ t) e (f, h) =
      if-holds (Apart x)
        (ltb r.created_at q.created_at || (r.created_at == q.created_at && before r q))
        (q ∷ insert_desc before r t) (r ∷ q ∷ t) (λ _. (f, insert_desc-Apart x r t e h))
        (λ _. (e, (f, h)))

  all-Apart :
      (r : ReceiveHistory) (done t : List ReceiveHistory)
      → Apart r t
      → All (λ x. Apart x done) t
      → All (λ x. Apart x (insert_desc before r done)) t
  all-Apart r done [] e h = tt
  all-Apart r done (x ∷ t) (e, es) (f, h) =
      (insert_desc-Apart x r done (ground (arith, e)) f, all-Apart r done t es h)

  sort_desc_fixed :
      (done t : List ReceiveHistory)
      → AreApart t
      → All (λ r. Apart r done) t
      → sort_desc before done t ≡ sort_desc first_in done t
  unfolding sort_desc
  sort_desc_fixed done [] a h = refl
  sort_desc_fixed done (r ∷ t) (e, a) (f, h) =
      sort_desc_fixed (insert_desc before r done) t a (all-Apart r done t e h)
      ∙ ap (λ d. sort_desc first_in d t) (insert_desc_fixed r done f)

  pub sort_desc-sorted : (t : List ReceiveHistory) → AreApart t → sort_desc before [] t ≡ sorted t
  sort_desc-sorted t a = sort_desc_fixed [] t a (none_yet t)
    where
      none_yet : (l : List ReceiveHistory) → All (λ r. Apart r []) l
      none_yet [] = tt
      none_yet (r ∷ l) = (tt, none_yet l)

history_offset-pos :
    (n size : ℕ)
    → suc n < int64_half
    → n * size < int64_half
    → history_offset (pos (suc n)) (pos size) ≡ n * size
unfolding history_offset
history_offset-pos n size a b =
    let first : (if ltb_ℤ (pos (suc n)) (pos 1) then pos 1 else pos (suc n)) ≡ pos (suc n) =
      ground arith in
    let before : sub64 (pos (suc n)) (pos 1) ≡ pos n =
      sub64-pos (suc n) 1 a (omega arith) ∙ ground arith in
    ap (λ p. to_uint64 (mul64 (sub64 p (pos 1)) (pos size))) first
    ∙ ap (λ p. to_uint64 (mul64 p (pos size))) before
    ∙ ap to_uint64 (mul64-pos n size b)
    ∙ to_uint64-pos (n * size) b

-- A page of a read that does not fail.
page :
    (w : Oracle) (account : String) (size n : ℕ) (s : World)
    → ((k : ℕ) → w.fails k ≡ false)
    → AreApart (of_account account s.tables.history)
    → suc n < int64_half
    → n * size < int64_half
    → size < int64_half
    → rows (run w (load_receive_history account (pos (suc n)) (pos size)) s).0
      ≡ take size (drop (n * size) (sorted (of_account account s.tables.history)))
unfolding load_receive_history Program.run answer select_history effect
page w account size n s no_fail apart a b c =
    let read : rows (run w (load_receive_history account (pos (suc n)) (pos size)) s).0
        ≡ select_history (w.tie s.tick) account (history_offset (pos (suc n)) (pos size))
            (to_uint64 (pos size)) s.tables.history =
      ground (arith, no_fail s.tick, no_fail (suc s.tick)) in
    read
    ∙ ap (λ o. select_history (w.tie s.tick) account o (to_uint64 (pos size)) s.tables.history)
        (history_offset-pos n size a b)
    ∙ ap (λ l. select_history (w.tie s.tick) account (n * size) l s.tables.history)
        (to_uint64-pos size c)
    ∙ ap (λ l. take size (drop (n * size) l))
        (sort_desc-sorted (w.tie s.tick) (of_account account s.tables.history) apart)

load_receive_history-tables :
    (w : Oracle) (account : String) (page size : ℤ) (s : World)
    → (run w (load_receive_history account page size) s).1.tables ≡ s.tables
unfolding load_receive_history Program.run answer effect
load_receive_history-tables w account page size s = ground arith

pages-tables :
    (w : Oracle) (account : String) (size n : ℕ) (s : World)
    → (pages_from w account size n s).1.tables ≡ s.tables
pages-tables w account size zero s = refl
pages-tables w account size (suc n) s =
    load_receive_history-tables w account (pos (suc n)) (pos size) (pages_from w account size n s).1
    ∙ pages-tables w account size n s

pages-take :
    (w : Oracle) (account : String) (size n : ℕ) (s : World)
    → ((k : ℕ) → w.fails k ≡ false)
    → AreApart (of_account account s.tables.history)
    → n < int64_half
    → n * size < int64_half
    → size < int64_half
    → pages w account size n s ≡ take (n * size) (sorted (of_account account s.tables.history))
pages-take w account size zero s no_fail apart a b c =
    ap (λ k. take k (sorted (of_account account s.tables.history))) {x = 0} {y = 0 * size}
      (omega arith)
pages-take w account size (suc n) s no_fail apart a b c =
    let all = sorted (of_account account s.tables.history) in
    let s' : World = (pages_from w account size n s).1 in
    let same : s'.tables ≡ s.tables = pages-tables w account size n s in
    let last = rows (run w (load_receive_history account (pos (suc n)) (pos size)) s').0 in
    let step : suc n * size ≡ n * size + size = ground arith in
    let b' : n * size < int64_half = omega (arith, b, step) in
    let apart' : AreApart (of_account account s'.tables.history) =
      subst (λ (t : Tables). AreApart (of_account account t.history)) (sym same) apart in
    ap (λ l. l ++ last) (pages-take w account size n s no_fail apart (omega (arith, a)) b' c)
    ∙ ap (λ l. take (n * size) all ++ l) (page w account size n s' no_fail apart' a b' c)
    ∙ ap
        (λ (t : Tables).
          take (n * size) all
          ++ take size (drop (n * size) (sorted (of_account account t.history))))
        same
    ∙ take-add (n * size) size all
    ∙ ap (λ k. take k all) (sym step)

-- Where no call fails and no two receipts of an account have the same time, its pages 1 to n are, one
-- after the other, all of its receipts, the last first, if n pages hold that many. In what order the
-- database puts receipts of one time may differ from page to page.
pub pages-all :
    (w : Oracle) (account : String) (size n : ℕ) (s : World)
    → ((k : ℕ) → w.fails k ≡ false)
    → AreApart (of_account account s.tables.history)
    → n < int64_half
    → n * size < int64_half
    → size < int64_half
    → length (of_account account s.tables.history) ≤ n * size
    → pages w account size n s ≡ sorted (of_account account s.tables.history)
pages-all w account size n s no_fail apart a b c enough =
    let all = sorted (of_account account s.tables.history) in
    pages-take w account size n s no_fail apart a b c
    ∙ take-all (n * size) all
        (omega (arith, enough, length-sort_desc first_in [] (of_account account s.tables.history)))
