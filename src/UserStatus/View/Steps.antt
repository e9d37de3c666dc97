-- ===== src/UserStatus/View/Steps.antt =====
-- What each handler, run to its end, shows to a client that listens, next to what it does to the hash.
use nestjs_stay_api.Common.{
  ℕ, ◌≡◌, ◌≢◌, refl, ap, sym, ◌∙◌, Bool, true, false, none, some, is_some, String, arith, includes,
  eq_iff,
}
use mathlib.Core.Path.{subst}
use nestjs_stay_api.Redis.{Redis}
use nestjs_stay_api.Websocket.{
  online, offline, connect_type, TrackedClient, get_client, websocket_subscribe,
  websocket_unsubscribe,
}
use nestjs_stay_api.Websocket.Clients.{
  Distinct, get_client-set_client, get_client-delete_client, set_client-Distinct,
  delete_client-Distinct,
}
use nestjs_stay_api.UserStatus.{
  user_status_hash_key, ttl_key, World, handle_message, ping_all, ping_frames, pong, broadcast,
  emit, handle_redis_expiration, drop_client,
}
use nestjs_stay_api.UserStatus.Keys.{ttl_key-ne-hash_key}
use nestjs_stay_api.UserStatus.Heartbeat.{get_client-ping_clients}
use nestjs_stay_api.UserStatus.Reach
use nestjs_stay_api.UserStatus.Table.{Step-Distinct}
use nestjs_stay_api.UserStatus.Flows.{
  settle, request, answer, subscribe_settles, subscribe_writes, unsubscribe_settles,
  unsubscribe_writes,
}
use nestjs_stay_api.UserStatus.Returns.{pong_settles, pong_writes}
use nestjs_stay_api.UserStatus.Liveness.{expire_settles}
use nestjs_stay_api.UserStatus.View.{after_news, shown, shown-append, shown-ping_frames}
use nestjs_stay_api.UserStatus.View.News.{Agrees, shown-news, shown-handled}

module _ (redis : Redis) (exists : String → Bool) (listener : ℕ) where
  open redis use {
    State, h_get, h_set, h_del, set, expire, h_get-h_set, h_get-h_del, h_get-set, h_get-expire,
  }

  pub subscribe-Agrees :
      (w : World State) (client : ℕ) (uid : String) (reset : Bool)
      → client ≢ listener
      → exists uid ≡ true
      → Agrees redis exists listener w
      → Agrees redis exists listener
          (settle redis exists 4 (handle_message client (request websocket_subscribe uid reset) w))
  subscribe-Agrees w client uid reset apart known k =
      let (done, online_now, timed_now, entered, sent) =
        subscribe_settles redis exists client uid w k.idle reset known in
      let (stores, lists, opens) = subscribe_writes redis exists client uid w k.idle reset known in
      let entry : TrackedClient = record {
        socket = client;
        user_uid = some uid;
        is_alive = true;
      } in
      let hashed = h_set user_status_hash_key uid "online" w.redis in
      let w' : World State =
        settle redis exists 4 (handle_message client (request websocket_subscribe uid reset) w) in
      record {
        idle = done;
        distinct = subst Distinct (sym lists) (set_client-Distinct entry w.clients k.distinct);
        tracked =
            ap (λ cs. is_some (get_client listener cs)) lists
            ∙ ground (arith, get_client-set_client listener entry w.clients, k.tracked);
        listens = ap (λ f. f listener) opens ∙ k.listens;
        agrees = λ u.
            ap (shown listener u false) sent
            ∙ shown-handled redis exists listener w client uid u online
                (answer redis exists uid reset w'.redis) k apart
            ∙ sym (
                ap (λ s. is_some (h_get user_status_hash_key u s)) stores
                ∙ ground (
                  arith,
                  h_get-set (ttl_key uid) "online" user_status_hash_key u 15 hashed
                      (ttl_key-ne-hash_key uid),
                  h_get-h_set user_status_hash_key uid "online" u w.redis,
                ));
      }

  deleted-agrees :
      (uid u : String) (s : State)
      → after_news uid offline u (is_some (h_get user_status_hash_key u s))
        ≡ is_some (h_get user_status_hash_key u (h_del user_status_hash_key uid s).0)
  deleted-agrees uid u s = ground (arith, h_get-h_del user_status_hash_key uid u s)

  pub unsubscribe-Agrees :
      (w : World State) (client : ℕ) (uid : String) (c : TrackedClient)
      → client ≢ listener
      → exists uid ≡ true
      → get_client client w.clients ≡ some c
      → Agrees redis exists listener w
      → Agrees redis exists listener (
          settle redis exists 4 (handle_message client (request websocket_unsubscribe uid false) w))
  unsubscribe-Agrees w client uid c apart known e k =
      let (done, gone, others, sent) =
        unsubscribe_settles redis exists client uid w k.idle k.distinct c e known in
      let (stores, lists, opens) =
        unsubscribe_writes redis exists client uid w k.idle k.distinct c e known in
      record {
        idle = done;
        distinct = subst Distinct (sym lists) (delete_client-Distinct client w.clients k.distinct);
        tracked =
            ap (λ cs. is_some (get_client listener cs)) lists
            ∙ ground (
              arith,
              apart,
              get_client-delete_client listener client w.clients k.distinct,
              k.tracked,
            );
        listens = ap (λ f. f listener) opens ∙ k.listens;
        agrees = λ u.
            ap (shown listener u false) sent
            ∙ shown-handled redis exists listener w client uid u offline
                (connect_type websocket_unsubscribe) k apart
            ∙ deleted-agrees uid u w.redis
            ∙ ap (λ s. is_some (h_get user_status_hash_key u s)) (sym stores);
      }

  pub expire-Agrees :
      (w : World State) (uid v : String)
      → includes b':' uid ≡ false
      → h_get user_status_hash_key uid w.redis ≡ some v
      → Agrees redis exists listener w
      → Agrees redis exists listener (
          settle redis exists 1 (
            handle_redis_expiration
              (ttl_key uid)
              (record w { redis = expire (ttl_key uid) w.redis })))
  unfolding broadcast emit
  expire-Agrees w uid v plain e k =
      let gone : World State = record w { redis = expire (ttl_key uid) w.redis } in
      let kept : (u : String)
          → h_get user_status_hash_key u gone.redis ≡ h_get user_status_hash_key u w.redis =
        λ u. ground (
          arith,
          h_get-expire (ttl_key uid) user_status_hash_key u w.redis,
          ttl_key-ne-hash_key uid,
        ) in
      subst (Agrees redis exists listener) (sym (expire_settles redis exists uid v w plain e))
        (record {
          idle = k.idle;
          distinct = k.distinct;
          tracked = k.tracked;
          listens = k.listens;
          agrees = λ u.
              shown-news redis exists listener w none uid u offline k refl
              ∙ ap (λ o. after_news uid offline u (is_some o)) (sym (kept u))
              ∙ deleted-agrees uid u gone.redis;
        })

  pub pings-Agrees :
      (w : World State) (o : TrackedClient)
      → get_client listener w.clients ≡ some o
      → o.is_alive ≡ true
      → Agrees redis exists listener w
      → Agrees redis exists listener (ping_all w)
  unfolding ping_all emit
  pings-Agrees w o e alive k = record {
    idle = k.idle;
    distinct = Step-Distinct redis exists _ _ (Reach.pings w) k.distinct;
    tracked = ground (arith, e, alive, get_client-ping_clients listener w.clients k.distinct);
    listens = k.listens;
    agrees = λ u.
        shown-append listener u false w.frames (ping_frames w.clients)
        ∙ shown-ping_frames listener u (shown listener u false w.frames) w.clients
        ∙ k.agrees u;
  }

  pub pongs-Agrees :
      (w : World State) (client : ℕ) (uid v : String) (c : TrackedClient)
      → get_client client w.clients ≡ some c
      → c.user_uid ≡ some uid
      → h_get user_status_hash_key uid w.redis ≡ some v
      → Agrees redis exists listener w
      → Agrees redis exists listener (settle redis exists 2 (pong client w))
  pongs-Agrees w client uid v c e own held k =
      let (done, online_again, timed_again, alive, silent) =
        pong_settles redis exists client uid w c k.idle e own in
      let (stores, lists, opens) = pong_writes redis exists client uid w c e own in
      let answered : TrackedClient = record c { is_alive = true } in
      let hashed = h_set user_status_hash_key uid "online" w.redis in
      record {
        idle = done;
        distinct = subst Distinct (sym lists) (set_client-Distinct answered w.clients k.distinct);
        tracked =
            ap (λ cs. is_some (get_client listener cs)) lists
            ∙ ground (arith, get_client-set_client listener answered w.clients, k.tracked);
        listens = ap (λ f. f listener) opens ∙ k.listens;
        agrees = λ u.
            ap (shown listener u false) silent
            ∙ k.agrees u
            ∙ sym (
                ap (λ s. is_some (h_get user_status_hash_key u s)) stores
                ∙ ground (
                  arith,
                  held,
                  eq_iff uid u,
                  h_get-set (ttl_key uid) "online" user_status_hash_key u 15 hashed
                      (ttl_key-ne-hash_key uid),
                  h_get-h_set user_status_hash_key uid "online" u w.redis,
                ));
      }

  pub drop-Agrees :
      (w : World State) (client : ℕ)
      → client ≢ listener
      → Agrees redis exists listener w
      → Agrees redis exists listener (drop_client client w)
  unfolding drop_client
  drop-Agrees w client apart k = record {
    idle = k.idle;
    distinct = delete_client-Distinct client w.clients k.distinct;
    tracked =
        ground
          (arith, apart, get_client-delete_client listener client w.clients k.distinct, k.tracked);
    listens = k.listens;
    agrees = k.agrees;
  }
