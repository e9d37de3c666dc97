-- ===== src/UserStatus/Keys.antt =====
-- The keys that carry the time to live: what `handleRedisExpiration` reads back from one.
use Prim.Native.String.{count}
use text.Mathlib.TextLemmas.{append_cancel_left, length-append, nil-append}
use text.Mathlib.TextPositions.{starts_with-append}
use nestjs_stay_api.Common.{
  ◌≡◌, ap, false, some, arith, String, ◌==◌, eq_iff, Bool-cases, inl, inr, get_elem?, split,
  includes, split-append, split_of_not_includes,
}
use nestjs_stay_api.UserStatus.{
  user_status_hash_key, user_status_hash_ttl_key, ttl_key, World, spawn, expiring,
  handle_redis_expiration,
}

ttl_key_injective : (u v : String) → ttl_key u ≡ ttl_key v → u ≡ v
ttl_key_injective = append_cancel_left user_status_hash_ttl_key

-- No key with a time to live is the hash itself.
pub ttl_key-ne-hash_key : (u : String) → (ttl_key u == user_status_hash_key) ≡ false
ttl_key-ne-hash_key u = elim (Bool-cases (ttl_key u == user_status_hash_key)) [
  | inr other ↦ other
  | inl same ↦
      let e : ttl_key u ≡ user_status_hash_key = (eq_iff _ _).0 same in
      absurd (omega (arith, ap count e, length-append user_status_hash_ttl_key u))
]

-- The fifth part of the key of a user is the user, if the id has no colon.
split-ttl_key :
    (u : String) → includes b':' u ≡ false → get_elem? (split b':' (ttl_key u)) 4 ≡ some u
unfolding split
split-ttl_key u h =
    rw (split-append b':' user_status_hash_ttl_key u, split_of_not_includes b':' u h, nil-append)

-- When the key of a user whose id has no colon expires, the handler removes that very user.
pub handle_redis_expiration-ttl_key :
    {S : Type 0} (u : String) (w : World S)
    → includes b':' u ≡ false
    → handle_redis_expiration (ttl_key u) w ≡ spawn (expiring u) w
unfolding handle_redis_expiration
handle_redis_expiration-ttl_key u w h =
    rw (starts_with-append user_status_hash_ttl_key u, split-ttl_key u h, handle_redis_expiration)

pub hash_key-ne-ttl_key : (u : String) → (user_status_hash_key == ttl_key u) ≡ false
hash_key-ne-ttl_key u = ground (
  arith,
  ttl_key-ne-hash_key u,
  eq_iff user_status_hash_key (ttl_key u),
  eq_iff (ttl_key u) user_status_hash_key,
)
