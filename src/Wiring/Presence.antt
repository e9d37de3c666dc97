-- ===== src/Wiring/Presence.antt =====
-- What the modules of src/app.module.ts, src/utils/websocket/websocket.module.ts and
-- src/modules/user-status/user-status.module.ts let the injection of Nest create.
use nestjs_stay_api.Common.{
  ◌≡◌, refl, sym, ◌∙◌, ◌⊎◌, inl, inr, Bool, true, false, Bool-cases, Option, some, List, [], ◌∷◌,
  ◌++◌, Any, String, arith, map, ◌==◌, ◌||◌, eq_iff,
}
use mathlib.Core.Path.{subst}
use mathlib.Core.Option.{some-injective}
use nestjs_stay_api.Wiring.{
  Provider, NestModule, websocket_gateway_module, user_status_module, cache_module, db_module,
}

abbrev pub Graph : Type 0
Graph = String → Option NestModule

abbrev pub IsIn : {A : Type 0} → A → List A → Type 0
IsIn x xs = Any (λ y. y ≡ x) xs

module _ (g : Graph) where
  -- What a module offers to those that import it: the tokens that it exports, and what the modules
  -- that it exports offer
  pub data Offered : String → String → Type 0 where
    exported :
        (name token : String) (m : NestModule)
        → g name ≡ some m
        → IsIn token m.exports
        → Offered name token
    passed_on :
        (name other token : String) (m : NestModule)
        → g name ≡ some m
        → IsIn other m.exported_modules
        → Offered other token
        → Offered name token

  module _ (root : String) where
    -- The modules of the application
    pub data Imported : String → Type 0 where
      is_root : Imported root
      through :
          (name other : String) (m : NestModule)
          → Imported name
          → g name ≡ some m
          → IsIn other m.imports
          → Imported other

    -- Where the providers of a module may have a token from
    pub data Visible : String → String → Type 0 where
      own :
          (name token : String) (m : NestModule)
          → g name ≡ some m
          → IsIn token (map (λ p. p.provide) m.providers)
          → Visible name token
      imported :
          (name other token : String) (m : NestModule)
          → g name ≡ some m
          → IsIn other m.imports
          → Offered other token
          → Visible name token
      everywhere :
          (name other token : String) (m : NestModule)
          → Imported other
          → g other ≡ some m
          → m.is_global ≡ true
          → Offered other token
          → Visible name token

    -- No global module of the application offers the token.
    abbrev pub NotGlobal : String → Type 0
    NotGlobal token =
        (name : String) (m : NestModule)
        → Imported name
        → g name ≡ some m
        → m.is_global ≡ true
        → Offered name token
        → ⊥

-- `NestFactory.create` as documented: it does not return if what a provider or a controller of a module
-- of the application asks for is not visible to that module.
pub record Nest : Type 0 where
  pub creates : Graph → String → Bool
  pub creates_lem :
      (g : Graph) (root name token : String) (m : NestModule) (p : Provider)
      → creates g root ≡ true
      → Imported g root name
      → g name ≡ some m
      → IsIn p (m.providers ++ m.controllers)
      → IsIn token p.inject
      → Visible g root name token

-- Whether a name is in a list
abbrev has : String → List String → Bool
has x [] = false
has x (y ∷ ys) = y == x || has x ys

IsIn-has : (x : String) (xs : List String) → IsIn x xs → has x xs ≡ true
IsIn-has x [] i = absurd i
IsIn-has x (y ∷ ys) (inl e) = ground (arith, eq_iff y x, e)
IsIn-has x (y ∷ ys) (inr i) = ground (arith, IsIn-has x ys i)

not-IsIn : (x : String) (xs : List String) → has x xs ≡ false → ¬ IsIn x xs
not-IsIn x xs lacks i = ground (arith, IsIn-has x xs i, lacks)

Any-IsIn : {A : Type 0} (P : A → Type 0) (x : A) (xs : List A) → IsIn x xs → P x → Any P xs
Any-IsIn P x [] i h = absurd i
Any-IsIn P x (y ∷ ys) (inl e) h = inl (subst P (sym e) h)
Any-IsIn P x (y ∷ ys) (inr i) h = inr (Any-IsIn P x ys i h)

module _ (g : Graph) (root : String) where
  Offered-from :
      (name token : String) (m : NestModule)
      → g name ≡ some m
      → m.exported_modules ≡ []
      → Offered g name token
      → IsIn token m.exports
  Offered-from name token m e none_passed (exported _ _ m' e' h) =
      subst (λ k. IsIn token k.exports) (some-injective _ _ (sym e' ∙ e)) h
  Offered-from name token m e none_passed (passed_on _ other _ m' e' h o) = absurd (
      subst (λ ks. IsIn other ks) none_passed
        (subst (λ k. IsIn other k.exported_modules) (some-injective _ _ (sym e' ∙ e)) h))

  Visible-from :
      (name token : String) (m : NestModule)
      → g name ≡ some m
      → NotGlobal g root token
      → Visible g root name token
      → IsIn token (map (λ p. p.provide) m.providers)
        ⊎ Any (λ other. Offered g other token) m.imports
  Visible-from name token m e local (own _ _ m' e' h) = inl (
      subst (λ k. IsIn token (map (λ p. p.provide) k.providers)) (some-injective _ _ (sym e' ∙ e))
        h)
  Visible-from name token m e local (imported _ other _ m' e' h o) = inr (
      Any-IsIn (λ other. Offered g other token) other m.imports
        (subst (λ k. IsIn other k.imports) (some-injective _ _ (sym e' ∙ e)) h) o)
  Visible-from name token m e local (everywhere _ other _ m' i e' h o) =
      absurd (local other m' i e' h o)

  gateway_alone :
      g "WebsocketGatewayModule" ≡ some websocket_gateway_module
      → NotGlobal g root "UserStatusMessage"
      → ¬ Visible g root "WebsocketGatewayModule" "UserStatusMessage"
  gateway_alone e local v =
      elim (Visible-from "WebsocketGatewayModule" "UserStatusMessage" _ e local v) [
        | inl own_one ↦ not-IsIn "UserStatusMessage" ("StayWebSocketGateway" ∷ []) refl own_one
        | inr none_imported ↦ none_imported
      ]

  service_alone :
      g "UserStatusModule" ≡ some user_status_module
      → g "CacheModule" ≡ some cache_module
      → g "DbModule" ≡ some db_module
      → NotGlobal g root "REDIS_SERVICE"
      → ¬ Visible g root "UserStatusModule" "REDIS_SERVICE"
  service_alone e cache db local v =
      elim (Visible-from "UserStatusModule" "REDIS_SERVICE" _ e local v) [
        | inl own_one ↦
            not-IsIn "REDIS_SERVICE"
              ("UserStatusMessage" ∷ "UserStatusService" ∷ "UserStatusRepository" ∷ []) refl own_one
        | inr (inl o) ↦
            not-IsIn "REDIS_SERVICE" cache_module.exports refl
              (Offered-from "CacheModule" "REDIS_SERVICE" _ cache refl o)
        | inr (inr (inl o)) ↦
            not-IsIn "REDIS_SERVICE" db_module.exports refl
              (Offered-from "DbModule" "REDIS_SERVICE" _ db refl o)
        | inr (inr (inr none_left)) ↦ none_left
      ]

  -- An application that has the module of the gateway, or the one of the user status, is not created, as
  -- long as no global module offers what these ask for: the first imports nothing that offers
  -- `UserStatusMessage`, and the second nothing that offers `REDIS_SERVICE`.
  presence_not_created :
      (nest : Nest)
      → g "WebsocketGatewayModule" ≡ some websocket_gateway_module
      → g "UserStatusModule" ≡ some user_status_module
      → g "CacheModule" ≡ some cache_module
      → g "DbModule" ≡ some db_module
      → NotGlobal g root "UserStatusMessage"
      → NotGlobal g root "REDIS_SERVICE"
      → Imported g root "WebsocketGatewayModule" ⊎ Imported g root "UserStatusModule"
      → nest.creates g root ≡ false
  presence_not_created nest gateway status cache db local_message local_redis has =
      elim (Bool-cases (nest.creates g root)) [
        | inr e ↦ e
        | inl e ↦ elim has [
          | inl i ↦ absurd (
              gateway_alone gateway local_message
                (nest.creates_lem g root _ _ _ _ e i gateway (inl refl) (inl refl)))
          | inr i ↦ absurd (
              service_alone status cache db local_redis
                (nest.creates_lem g root _ _ _ _ e i status (inr (inl refl)) (inl refl)))
        ]
      ]
