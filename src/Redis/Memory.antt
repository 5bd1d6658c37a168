-- ===== src/Redis/Memory.antt =====
-- One server that meets the interface, with each view a function: it shows that the documented
-- effects can hold together.
use Prim.Native.String.{String}
use simple_claude_code_githu.Prelude.{
  ℕ, ◌≡◌, refl, Bool, true, false, Option, none, some, List, [], ◌∷◌, ◌++◌, str_eq, eq_iff, not,
  ◌&&◌, ◌||◌, arith, if◌then◌else◌,
}
use simple_claude_code_githu.Prelude.Text.{str_elem}
use simple_claude_code_githu.Redis.Server.{Redis, Stored, tail}

abbrev pub include : String → List String → List String
include m xs = if str_elem m xs then xs else m ∷ xs

abbrev pub exclude : String → List String → List String
exclude m [] = []
exclude m (x ∷ xs) = let rest = exclude m xs in if str_eq x m then rest else x ∷ rest

pub elem-included :
    (b : Bool) (m n : String) (xs : List String)
    → str_elem n (if b then include m xs else xs) ≡ (b && str_eq m n || str_elem n xs)
unfolding str_elem
elem-included true m n xs = ground (arith, eq_iff m n)
elem-included false m n xs = refl

elem-exclude :
    (m n : String) (xs : List String)
    → str_elem n (exclude m xs) ≡ (not (str_eq m n) && str_elem n xs)
unfolding str_elem
elem-exclude m n [] = ground arith
elem-exclude m n (x ∷ xs) = ground (arith, eq_iff x m, eq_iff x n, eq_iff m n, elem-exclude m n xs)

pub elem-excluded :
    (b : Bool) (m n : String) (xs : List String)
    → str_elem n (if b then exclude m xs else xs) ≡ (not (b && str_eq m n) && str_elem n xs)
elem-excluded true m n xs = elem-exclude m n xs
elem-excluded false m n xs = refl

pub record Memory : Type 0 where
  pub strings : String → Option Stored
  pub ttls : String → Option ℕ
  pub lists : String → List Stored
  pub sets : String → List String

abbrev pub empty : Memory
empty = record { strings = λ _. none; ttls = λ _. none; lists = λ _. []; sets = λ _. [] }

abbrev pub memory : Redis
memory = record {
  Store = Memory;
  get = λ k s. s.strings k;
  ttl = λ k s. s.ttls k;
  lrange = λ k s. s.lists k;
  sismember = λ k m s. str_elem m (s.sets k);
  smembers = λ k s. s.sets k;
  elem_smembers = λ _ _ _. refl;
  setex = λ k t v s. record s {
    strings = λ j. if str_eq k j then some v else s.strings j;
    ttls = λ j. if str_eq k j then some t else s.ttls j;
  };
  delete = λ k s. record s {
    strings = λ j. if str_eq k j then none else s.strings j;
    ttls = λ j. if str_eq k j then none else s.ttls j;
  };
  rpush = λ k v s. record s { lists = λ j. if str_eq k j then s.lists j ++ v ∷ [] else s.lists j };
  lpop = λ k s. record s { lists = λ j. if str_eq k j then tail (s.lists j) else s.lists j };
  sadd = λ k m s. record s { sets = λ j. if str_eq k j then include m (s.sets j) else s.sets j };
  srem = λ k m s. record s { sets = λ j. if str_eq k j then exclude m (s.sets j) else s.sets j };
  get_setex = λ _ _ _ _ _ _. refl;
  ttl_setex = λ _ _ _ _ _ _. refl;
  lrange_setex = λ _ _ _ _ _. refl;
  sismember_setex = λ _ _ _ _ _ _. refl;
  get_delete = λ _ _ _. refl;
  ttl_delete = λ _ _ _. refl;
  lrange_delete = λ _ _ _. refl;
  sismember_delete = λ _ _ _ _. refl;
  get_rpush = λ _ _ _ _. refl;
  ttl_rpush = λ _ _ _ _. refl;
  lrange_rpush = λ _ _ _ _. refl;
  sismember_rpush = λ _ _ _ _ _. refl;
  get_lpop = λ _ _ _. refl;
  ttl_lpop = λ _ _ _. refl;
  lrange_lpop = λ _ _ _. refl;
  sismember_lpop = λ _ _ _ _. refl;
  get_sadd = λ _ _ _ _. refl;
  ttl_sadd = λ _ _ _ _. refl;
  lrange_sadd = λ _ _ _ _. refl;
  sismember_sadd = λ k j m n s. elem-included (str_eq k j) m n (s.sets j);
  get_srem = λ _ _ _ _. refl;
  ttl_srem = λ _ _ _ _. refl;
  lrange_srem = λ _ _ _ _. refl;
  sismember_srem = λ k j m n s. elem-excluded (str_eq k j) m n (s.sets j);
}
