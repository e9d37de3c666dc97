-- ===== src/UserStatus/View/News.antt =====
-- When what a client that listens is shown agrees with the hash, and what the frames of a handler change
-- in it.
use nestjs_stay_api.Common.{
  ℕ, ◌≡◌, ◌≢◌, ◌∙◌, Bool, true, false, Option, some, List, [], ◌∷◌, ◌++◌, is_some, String, arith,
}
use nestjs_stay_api.Redis.{Redis}
use nestjs_stay_api.Websocket.{
  UserStatus, Payload, statuses, connect_type, Frame, send, get_client, broadcast_status,
  websocket_channel_user_status, is_connected,
}
use nestjs_stay_api.UserStatus.{user_status_hash_key, World}
use nestjs_stay_api.UserStatus.Table.{DistinctClients}
use nestjs_stay_api.UserStatus.Flows.{news}
use nestjs_stay_api.UserStatus.View.{after_news, shown, shown-append, shown-broadcast_status}

module _ (redis : Redis) (exists : String → Bool) (listener : ℕ) where
  open redis use {
    State, h_get, h_set, h_del, set, expire, h_get-h_set, h_get-h_del, h_get-set, h_get-expire,
  }

  -- The listener is tracked and open, and is shown as online exactly the users in the hash.
  pub record Agrees (w : World State) : Type 0 where
    pub idle : w.tasks ≡ []
    pub distinct : DistinctClients w
    pub tracked : is_some (get_client listener w.clients) ≡ true
    pub listens : w.is_open listener ≡ true
    pub agrees :
        (uid : String)
        → shown listener uid false w.frames ≡ is_some (h_get user_status_hash_key uid w.redis)

  -- What the listener is shown after news of others and a frame to the one that caused them
  pub shown-news :
      (w : World State) (connected : Option ℕ) (about uid : String) (status : UserStatus)
      → Agrees w
      → is_connected connected listener ≡ false
      → shown listener uid false (
          w.frames
          ++ broadcast_status w.is_open connected websocket_channel_user_status
              (statuses ((about, status) ∷ []))
              w.clients)
        ≡ after_news about status uid (is_some (h_get user_status_hash_key uid w.redis))
  shown-news w connected about uid status k apart =
      shown-append listener uid false w.frames _
      ∙ ground (
        arith,
        apart,
        k.tracked,
        k.listens,
        k.agrees uid,
        shown-broadcast_status w.is_open connected websocket_channel_user_status about uid status
            listener (shown listener uid false w.frames) w.clients,
      )

  shown-send :
      (client : ℕ) (uid channel : String) (p : Payload) (fs : List Frame)
      → client ≢ listener
      → shown listener uid false (fs ++ send client channel p ∷ []) ≡ shown listener uid false fs
  shown-send client uid channel (statuses info) fs apart =
      shown-append listener uid false fs (send client channel (statuses info) ∷ []) ∙ ground arith
  shown-send client uid channel (connect_type type) fs apart =
      shown-append listener uid false fs (send client channel (connect_type type) ∷ [])

  other_socket : (client : ℕ) → client ≢ listener → is_connected (some client) listener ≡ false
  other_socket client apart = ground arith

  -- The news of a handler, and then its answer to the client
  pub shown-handled :
      (w : World State) (client : ℕ) (about uid : String) (status : UserStatus) (p : Payload)
      → Agrees w
      → client ≢ listener
      → shown listener uid false (
          (w.frames ++ news redis exists client about w (statuses ((about, status) ∷ [])))
          ++ send client websocket_channel_user_status p ∷ [])
        ≡ after_news about status uid (is_some (h_get user_status_hash_key uid w.redis))
  shown-handled w client about uid status p k apart =
      shown-send client uid websocket_channel_user_status p
        (w.frames ++ news redis exists client about w (statuses ((about, status) ∷ []))) apart
      ∙ shown-news w (some client) about uid status k (other_socket client apart)
