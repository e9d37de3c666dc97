-- ===== src/Providers/Connections.antt =====
-- The connections that an object of a factory opens and closes.
use nestjs_stay_api.Common.{
  ◌≡◌, refl, ap, ◌∙◌, sym, Option, none, some, List, [], ◌∷◌, ◌++◌, arith, Option-cases, inl, inr,
}
use nestjs_stay_api.Mongo
use nestjs_stay_api.Mongo.{
  MongoConfig, MongoUtil, mongo_util, connect, connect_all, disconnect, get_connection,
  configuration_not_found,
}
use nestjs_stay_api.Providers.{StayConfig, mongo_util_provider}

connect_all_last :
    {C : Type 0} (cs : List (Option C)) (c : C) (u : MongoUtil C)
    → ((connect_all (cs ++ some c ∷ []) u).connection ≡ some c)
      × ((connect_all (cs ++ some c ∷ []) u).closed ≡ u.closed)
unfolding connect_all connect
connect_all_last [] c u = (refl, refl)
connect_all_last (none ∷ cs) c u = connect_all_last cs c _
connect_all_last (some d ∷ cs) c u = connect_all_last cs c _

disconnect_connected :
    {C : Type 0} (c : C) (u : MongoUtil C)
    → u.connection ≡ some c
    → (disconnect u).closed ≡ u.closed ++ c ∷ []
unfolding disconnect
disconnect_connected c u e = simp (disconnect, e)

opened_by_factory :
    {C : Type 0} (config : StayConfig) (c : C) (u : MongoUtil C)
    → mongo_util_provider config (some c) ≡ Mongo.Outcome.returned u
    → (u.connection ≡ some c) × (u.closed ≡ [])
unfolding mongo_util_provider mongo_util connect
opened_by_factory config c u e = elim (Option-cases config.mongo_config) [
  | inl n ↦
      let p : mongo_util_provider config (some c) ≡ Mongo.Outcome.thrown configuration_not_found =
        simp (mongo_util_provider, n) in
      absurd (ground (arith, sym p ∙ e))
  | inr (m, s) ↦
      let made : MongoUtil _ = record {
        mongo_config = m;
        connection = some c;
        closed = [];
        failures = 0;
      } in
      let p : mongo_util_provider config (some c) ≡ Mongo.Outcome.returned made =
        simp (mongo_util_provider, s) in
      let same : made ≡ u = ground (arith, sym p ∙ e) in
      (sym (ap (λ x. x.connection) same), sym (ap (λ x. x.closed) same))
]

-- Of all the connections that were opened for the object of the MongoDB factory, by the factory itself
-- and by later calls of `onModuleInit` however many, `getConnection` gives the last one, and
-- `onModuleDestroy` closes the last one and no other.
pub disconnect-mongo_util_provider :
    {C : Type 0} (config : StayConfig) (first : C) (cs : List (Option C)) (last : C)
    (u : MongoUtil C)
    → mongo_util_provider config (some first) ≡ Mongo.Outcome.returned u
    → let later = connect_all (cs ++ some last ∷ []) u in
      (u.connection ≡ some first)
      × (get_connection later ≡ Mongo.Outcome.returned last)
      × ((disconnect later).closed ≡ last ∷ [])
unfolding get_connection
disconnect-mongo_util_provider config first cs last u e =
    let later = connect_all (cs ++ some last ∷ []) u in
    let (opened, open_still) = opened_by_factory config first u e in
    let (connected, closed_still) = connect_all_last cs last u in
    (
      opened,
      simp (get_connection, connected),
      disconnect_connected last later connected
          ∙ ap (λ l. l ++ last ∷ []) (closed_still ∙ open_still),
    )
