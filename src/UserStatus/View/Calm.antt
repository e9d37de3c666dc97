-- ===== src/UserStatus/View/Calm.antt =====
-- Runs of src/modules/user-status/user-status.message.ts in which handlers do not interleave, and what a
-- client that listens is shown in them.
use nestjs_stay_api.Common.{ℕ, ◌≡◌, ◌≢◌, Bool, true, false, some, [], is_some, String, includes}
use nestjs_stay_api.Redis.{Redis}
use nestjs_stay_api.Websocket.{
  TrackedClient, get_client, websocket_subscribe, websocket_unsubscribe,
}
use nestjs_stay_api.UserStatus.{
  user_status_hash_key, ttl_key, World, handle_message, ping_all, pong, handle_redis_expiration,
  drop_client,
}
use nestjs_stay_api.UserStatus.Table.{DistinctClients}
use nestjs_stay_api.UserStatus.Flows.{settle, request}
use nestjs_stay_api.UserStatus.View.{shown}
use nestjs_stay_api.UserStatus.View.Steps
use nestjs_stay_api.UserStatus.View.News.{Agrees}

module _ (redis : Redis) (exists : String → Bool) (listener : ℕ) where
  open redis use {
    State, h_get, h_set, h_del, set, expire, h_get-h_set, h_get-h_del, h_get-set, h_get-expire,
  }

  -- Runs in which each handler ends before the next begins, and nothing fails. The listener sends no
  -- message, and is not silent at a round of pings; a pong of a client comes while its user is in the
  -- hash.
  pub data Calm (start : World State) : World State → Type 0 where
    starts : Calm start start
    subscribes :
        (w : World State) (client : ℕ) (uid : String) (reset : Bool)
        → Calm start w
        → client ≢ listener
        → exists uid ≡ true
        → Calm start (
            settle redis exists 4 (handle_message client (request websocket_subscribe uid reset) w))
    unsubscribes :
        (w : World State) (client : ℕ) (uid : String) (c : TrackedClient)
        → Calm start w
        → client ≢ listener
        → exists uid ≡ true
        → get_client client w.clients ≡ some c
        → Calm start (
            settle redis exists 4
              (handle_message client (request websocket_unsubscribe uid false) w))
    expires :
        (w : World State) (uid v : String)
        → Calm start w
        → includes b':' uid ≡ false
        → h_get user_status_hash_key uid w.redis ≡ some v
        → Calm start (
            settle redis exists 1 (
              handle_redis_expiration
                (ttl_key uid)
                (record w { redis = expire (ttl_key uid) w.redis })))
    pings :
        (w : World State) (o : TrackedClient)
        → Calm start w
        → get_client listener w.clients ≡ some o
        → o.is_alive ≡ true
        → Calm start (ping_all w)
    disconnects :
        (w : World State) (client : ℕ)
        → Calm start w
        → client ≢ listener
        → Calm start (drop_client client w)
    pongs :
        (w : World State) (client : ℕ) (uid v : String) (c : TrackedClient)
        → Calm start w
        → get_client client w.clients ≡ some c
        → c.user_uid ≡ some uid
        → h_get user_status_hash_key uid w.redis ≡ some v
        → Calm start (settle redis exists 2 (pong client w))

  Calm-Agrees :
      (start w : World State)
      → Calm start w
      → Agrees redis exists listener start
      → Agrees redis exists listener w
  Calm-Agrees start _ starts k = k
  Calm-Agrees start _ (subscribes w client uid reset r apart known) k =
      Steps.subscribe-Agrees redis exists listener w client uid reset apart known
        (Calm-Agrees start w r k)
  Calm-Agrees start _ (unsubscribes w client uid c r apart known e) k =
      Steps.unsubscribe-Agrees redis exists listener w client uid c apart known e
        (Calm-Agrees start w r k)
  Calm-Agrees start _ (expires w uid v r plain e) k =
      Steps.expire-Agrees redis exists listener w uid v plain e (Calm-Agrees start w r k)
  Calm-Agrees start _ (pings w o r e alive) k =
      Steps.pings-Agrees redis exists listener w o e alive (Calm-Agrees start w r k)
  Calm-Agrees start _ (disconnects w client r apart) k =
      Steps.drop-Agrees redis exists listener w client apart (Calm-Agrees start w r k)
  Calm-Agrees start _ (pongs w client uid v c r e own held) k =
      Steps.pongs-Agrees redis exists listener w client uid v c e own held (Calm-Agrees start w r k)

  -- Handlers run one after the other, and nothing fails; a tracked, open client sends no message itself
  -- and is never silent at a round of pings; the keys of users in the hash run out, of ids without a
  -- colon, other clients leave, and a pong comes only from a client whose user is in the hash. If the client was
  -- shown as online exactly the users in the hash at the beginning, so it is after every handler: the
  -- last status that it was sent for a user is online exactly if the hash has the user.
  pub Calm-shown :
      (start w : World State) (uid : String)
      → Calm start w
      → start.tasks ≡ []
      → DistinctClients start
      → is_some (get_client listener start.clients) ≡ true
      → start.is_open listener ≡ true
      → ((u : String)
          → shown listener u false start.frames
            ≡ is_some (h_get user_status_hash_key u start.redis))
      → shown listener uid false w.frames ≡ is_some (h_get user_status_hash_key uid w.redis)
  Calm-shown start w uid r idle distinct tracked listens agree =
      (Calm-Agrees start w r (record {
        idle = idle;
        distinct = distinct;
        tracked = tracked;
        listens = listens;
        agrees = agree;
      })).agrees
        uid
