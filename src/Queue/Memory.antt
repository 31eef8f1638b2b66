-- ===== src/Queue/Memory.antt =====
-- Redis in memory, for the tests: each command succeeds.
use titan_explorer.Base.{
  ℕ, suc, ◌≡◌, refl, sym, ap, ◌∙◌, String, some, List, [], ◌∷◌, arith, if◌then◌else◌, str_eq,
  eq_iff,
}
use titan_explorer.Base.Int.{pos}
use titan_explorer.Queue.Redis.{Redis, int, remove_first, remove_all, occurrences}

pub record Store : Type 0 where
  pub lists : String → List String
  pub counters : String → ℕ

abbrev pub at : {A : Type 0} → String → A → (String → A) → String → A
at k v f k' = if str_eq k k' then v else f k'

pub at-same : {A : Type 0} (k : String) (v : A) (f : String → A) → at k v f k ≡ v
at-same k v f = ap (λ b. if b then v else f k) ((eq_iff k k).1 refl)

abbrev pub push : String → String → Store → Store
push k v s = record s { lists = at k (v ∷ s.lists k) s.lists }

abbrev pub pop : String → String → Store → Store
pop k v s = record s { lists = at k (remove_first v (s.lists k)) s.lists }

abbrev pub pop_all : String → String → Store → Store
pop_all k v s = record s { lists = at k (remove_all v (s.lists k)) s.lists }

abbrev pub count : String → Store → Store
count k s = record s { counters = at k (suc (s.counters k)) s.counters }

abbrev pub drop_count : String → Store → Store
drop_count k s = record s { counters = at k 0 s.counters }

pub some_inj : {A : Type 0} {a b : A} → some a ≡ some b → a ≡ b
some_inj e = ground (arith, e)

pub parts : {A B : Type 0} (p q : A × B) → some p ≡ some q → (p.0 ≡ q.0) × (p.1 ≡ q.1)
parts p q e = (ap (λ r. r.0) (some_inj e), ap (λ r. r.1) (some_inj e))

abbrev pub memory : Redis Store
memory = record {
  list = λ s k. s.lists k;
  counter = λ s k. s.counters k;
  lpush = λ k v s. some (push k v s);
  lrem_one = λ k v s. some (pop k v s);
  lrem_all = λ k v s. some (occurrences v (s.lists k), pop_all k v s);
  lrange = λ k s. some (s.lists k);
  incr = λ k s. some (count k s);
  get_int = λ k s. int (pos (s.counters k));
  del = drop_count;
  lpush-list =
      λ k v s s' e. ap (λ t. t.lists k) (sym (some_inj e)) ∙ at-same k (v ∷ s.lists k) s.lists;
  lrem_one-list = λ k v s s' e.
      ap (λ t. t.lists k) (sym (some_inj e)) ∙ at-same k (remove_first v (s.lists k)) s.lists;
  lrem_all-list = λ k v s s' n e. (
    ap (λ t. t.lists k) (sym (parts (occurrences v (s.lists k), pop_all k v s) (n, s') e).1)
        ∙ at-same k (remove_all v (s.lists k)) s.lists,
    sym (parts (occurrences v (s.lists k), pop_all k v s) (n, s') e).0,
  );
  lrange-list = λ k s l e. sym (some_inj e);
  incr-counter = λ k s s' e.
      ap (λ t. t.counters k) (sym (some_inj e)) ∙ at-same k (suc (s.counters k)) s.counters;
  get_int-Replies = λ k s. refl;
  del-counter = λ k s. at-same k 0 s.counters;
}

abbrev pub empty : Store
empty = record { lists = λ k. []; counters = λ k. 0 }
