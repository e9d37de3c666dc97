-- ===== src/Bootstrap.antt =====
-- src/main.ts: what `bootstrap` sets up before the application listens. The libraries' objects are
-- given by the arguments that they are made with.
use nestjs_stay_api.Common.{ℕ, Bool, true, false, Option, none, some, String}
use nestjs_stay_api.Providers.{StayConfig}

-- The document of the API and its page
pub record ApiDocs : Type 0 where
  pub title : String
  pub description : String
  pub version : String
  pub bearer_auth : Bool
  pub operation_id : String → String → String
  pub path : String
  pub persist_authorization : Bool

pub record Application : Type 0 where
  pub docs : ApiDocs
  pub global_prefix : String
  pub transform : Bool
  pub api_port : Option ℕ
  pub host : String

-- `configService.get('stayConfig.port.api')`; undefined where a part is missing (`none`)
unfoldable pub api_port : Option StayConfig → Option ℕ
api_port none = none
api_port (some config) = elim config.port [ none ↦ none | some ports ↦ some ports.api ]

unfoldable pub api_docs : ApiDocs
api_docs = record {
  title = "STAY API Docs";
  description = "STAY Service API Documentation";
  version = "1.0.0";
  bearer_auth = true;
  operation_id = λ controller_key method_key. method_key;
  path = "swagger/stay/docs";
  persist_authorization = true;
}

-- `bootstrap`, where the first argument is whether `NestFactory.create` returned; otherwise it rejects.
unfoldable pub bootstrap : Bool → Option StayConfig → Option Application
unfolding api_port api_docs
bootstrap false config = none
bootstrap true config = some (record {
  docs = api_docs;
  global_prefix = "api/v1";
  transform = true;
  api_port = api_port config;
  host = "0.0.0.0";
})
