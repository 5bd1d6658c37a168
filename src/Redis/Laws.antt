-- ===== src/Redis/Laws.antt =====
-- The server's laws as lemmas that the tactics can list, and the actions run where no command fails
-- or where one returned.
use simple_claude_code_githu.Prelude.{
  ℕ, ◌<◌, String, ◌≡◌, none, some, [], ◌∷◌, ◌++◌, str_eq, not, ◌&&◌, ◌||◌, if◌then◌else◌,
}
use simple_claude_code_githu.Redis.Server.{Redis, Stored, tail}

module _ (r : Redis) where
  pub get-setex :
      (k j : String) (t : ℕ) (v : Stored) (s : r.Store)
      → 0 < t
      → r.get j (r.setex k t v s) ≡ (if str_eq k j then some v else r.get j s)
  get-setex = r.get_setex

  pub ttl-setex :
      (k j : String) (t : ℕ) (v : Stored) (s : r.Store)
      → 0 < t
      → r.ttl j (r.setex k t v s) ≡ (if str_eq k j then some t else r.ttl j s)
  ttl-setex = r.ttl_setex

  pub lrange-setex :
      (k j : String) (t : ℕ) (v : Stored) (s : r.Store)
      → r.lrange j (r.setex k t v s) ≡ r.lrange j s
  lrange-setex = r.lrange_setex

  pub sismember-setex :
      (k j m : String) (t : ℕ) (v : Stored) (s : r.Store)
      → r.sismember j m (r.setex k t v s) ≡ r.sismember j m s
  sismember-setex = r.sismember_setex

  pub get-delete :
      (k j : String) (s : r.Store)
      → r.get j (r.delete k s) ≡ (if str_eq k j then none else r.get j s)
  get-delete = r.get_delete

  pub ttl-delete :
      (k j : String) (s : r.Store)
      → r.ttl j (r.delete k s) ≡ (if str_eq k j then none else r.ttl j s)
  ttl-delete = r.ttl_delete

  pub lrange-delete : (k j : String) (s : r.Store) → r.lrange j (r.delete k s) ≡ r.lrange j s
  lrange-delete = r.lrange_delete

  pub sismember-delete :
      (k j m : String) (s : r.Store) → r.sismember j m (r.delete k s) ≡ r.sismember j m s
  sismember-delete = r.sismember_delete

  pub get-rpush : (k j : String) (v : Stored) (s : r.Store) → r.get j (r.rpush k v s) ≡ r.get j s
  get-rpush = r.get_rpush

  pub ttl-rpush : (k j : String) (v : Stored) (s : r.Store) → r.ttl j (r.rpush k v s) ≡ r.ttl j s
  ttl-rpush = r.ttl_rpush

  pub lrange-rpush :
      (k j : String) (v : Stored) (s : r.Store)
      → r.lrange j (r.rpush k v s) ≡ (if str_eq k j then r.lrange j s ++ v ∷ [] else r.lrange j s)
  lrange-rpush = r.lrange_rpush

  pub sismember-rpush :
      (k j m : String) (v : Stored) (s : r.Store)
      → r.sismember j m (r.rpush k v s) ≡ r.sismember j m s
  sismember-rpush = r.sismember_rpush

  pub get-lpop : (k j : String) (s : r.Store) → r.get j (r.lpop k s) ≡ r.get j s
  get-lpop = r.get_lpop

  pub ttl-lpop : (k j : String) (s : r.Store) → r.ttl j (r.lpop k s) ≡ r.ttl j s
  ttl-lpop = r.ttl_lpop

  pub lrange-lpop :
      (k j : String) (s : r.Store)
      → r.lrange j (r.lpop k s) ≡ (if str_eq k j then tail (r.lrange j s) else r.lrange j s)
  lrange-lpop = r.lrange_lpop

  pub sismember-lpop :
      (k j m : String) (s : r.Store) → r.sismember j m (r.lpop k s) ≡ r.sismember j m s
  sismember-lpop = r.sismember_lpop

  pub get-sadd : (k j m : String) (s : r.Store) → r.get j (r.sadd k m s) ≡ r.get j s
  get-sadd = r.get_sadd

  pub ttl-sadd : (k j m : String) (s : r.Store) → r.ttl j (r.sadd k m s) ≡ r.ttl j s
  ttl-sadd = r.ttl_sadd

  pub lrange-sadd : (k j m : String) (s : r.Store) → r.lrange j (r.sadd k m s) ≡ r.lrange j s
  lrange-sadd = r.lrange_sadd

  pub sismember-sadd :
      (k j m n : String) (s : r.Store)
      → r.sismember j n (r.sadd k m s) ≡ (str_eq k j && str_eq m n || r.sismember j n s)
  sismember-sadd = r.sismember_sadd

  pub get-srem : (k j m : String) (s : r.Store) → r.get j (r.srem k m s) ≡ r.get j s
  get-srem = r.get_srem

  pub ttl-srem : (k j m : String) (s : r.Store) → r.ttl j (r.srem k m s) ≡ r.ttl j s
  ttl-srem = r.ttl_srem

  pub lrange-srem : (k j m : String) (s : r.Store) → r.lrange j (r.srem k m s) ≡ r.lrange j s
  lrange-srem = r.lrange_srem

  pub sismember-srem :
      (k j m n : String) (s : r.Store)
      → r.sismember j n (r.srem k m s) ≡ (not (str_eq k j && str_eq m n) && r.sismember j n s)
  sismember-srem = r.sismember_srem

-- Which command shows in which view.
pub ruleset redis_laws = (
  get-setex, ttl-setex, lrange-setex, sismember-setex, get-delete, ttl-delete, lrange-delete,
  sismember-delete, get-rpush, ttl-rpush, lrange-rpush, sismember-rpush, get-lpop, ttl-lpop,
  lrange-lpop, sismember-lpop, get-sadd, ttl-sadd, lrange-sadd, sismember-sadd, get-srem, ttl-srem,
  lrange-srem, sismember-srem,
)
