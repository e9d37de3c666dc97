-- ===== src/Wiring.antt =====
-- The modules of the application: src/app.module.ts and the module files of src/modules and src/utils.
-- A provider or a controller is its token with the tokens that it asks for; a class and a constant
-- stand for their names. A property that is injected counts as asked for. The one list `exports` of a
-- module is two here, since it may hold tokens and modules.
pub mod Presence
use nestjs_stay_api.Common.{Bool, true, false, List, [], ◌∷◌, String}

pub record Provider : Type 0 where
  pub provide : String
  pub inject : List String

pub record NestModule : Type 0 where
  pub imports : List String
  pub controllers : List Provider
  pub providers : List Provider
  pub exports : List String
  pub exported_modules : List String
  pub is_global : Bool

-- `FactoryProvider` on the configuration
abbrev configured : String → Provider
configured token = record { provide = token; inject = "ConfigService" ∷ [] }

abbrev plain : String → Provider
plain token = record { provide = token; inject = [] }

-- `DbRepository` and the classes that extend it
abbrev repository : String → Provider
repository token = record { provide = token; inject = "RW_PG_UTIL" ∷ "RO_PG_UTIL" ∷ [] }

abbrev pub app_module : NestModule
app_module = record {
  imports = "ConfigModule" ∷ "CacheModule" ∷ "DbModule" ∷ "LoggingModule" ∷ "UsersModule" ∷ [];
  controllers = [];
  providers = [];
  exports = [];
  exported_modules = [];
  is_global = false;
}

abbrev pub cache_module : NestModule
cache_module = record {
  imports = [];
  controllers = [];
  providers =
      record { provide = "REDIS_UTIL"; inject = "RedisUtil" ∷ [] } ∷ configured "RedisUtil" ∷ [];
  exports = "REDIS_UTIL" ∷ [];
  exported_modules = [];
  is_global = false;
}

abbrev pub db_module : NestModule
db_module = record {
  imports = [];
  controllers = [];
  providers =
      configured "RW_PG_UTIL"
      ∷ configured "RO_PG_UTIL"
      ∷ configured "MG_UTIL"
      ∷ repository "DbRepository"
      ∷ [];
  exports = "RW_PG_UTIL" ∷ "RO_PG_UTIL" ∷ "MG_UTIL" ∷ "DbRepository" ∷ [];
  exported_modules = [];
  is_global = false;
}

abbrev pub logging_module : NestModule
logging_module = record {
  imports = "DbModule" ∷ [];
  controllers = [];
  providers = record { provide = "LoggingService"; inject = "MG_UTIL" ∷ [] } ∷ [];
  exports = "LoggingService" ∷ [];
  exported_modules = [];
  is_global = false;
}

abbrev pub user_status_module : NestModule
user_status_module = record {
  imports = "CacheModule" ∷ "DbModule" ∷ [];
  controllers = [];
  providers =
      record { provide = "UserStatusMessage"; inject = "UserStatusService" ∷ [] }
      ∷ record {
        provide = "UserStatusService";
        inject = "REDIS_SERVICE" ∷ "UserStatusRepository" ∷ [];
      }
      ∷ repository "UserStatusRepository"
      ∷ [];
  exports = "UserStatusMessage" ∷ [];
  exported_modules = [];
  is_global = false;
}

abbrev pub websocket_gateway_module : NestModule
websocket_gateway_module = record {
  imports = [];
  controllers = [];
  providers = record { provide = "StayWebSocketGateway"; inject = "UserStatusMessage" ∷ [] } ∷ [];
  exports = "StayWebSocketGateway" ∷ [];
  exported_modules = [];
  is_global = false;
}

abbrev pub mail_module : NestModule
mail_module = record {
  imports = "DbModule" ∷ [];
  controllers = [];
  providers = plain "MailService" ∷ [];
  exports = "MailService" ∷ [];
  exported_modules = [];
  is_global = false;
}

abbrev pub queue_module : NestModule
queue_module = record {
  imports = [];
  controllers = [];
  providers = configured "BULL_MAIL_QUEUE" ∷ configured "BULL_PUSH_QUEUE" ∷ [];
  exports = "BULL_MAIL_QUEUE" ∷ "BULL_PUSH_QUEUE" ∷ [];
  exported_modules = [];
  is_global = false;
}

abbrev pub sqs_module : NestModule
sqs_module = record {
  imports = [];
  controllers = [];
  providers = configured "SQS_UTIL" ∷ [];
  exports = "SQS_UTIL" ∷ [];
  exported_modules = [];
  is_global = false;
}

abbrev pub s3_module : NestModule
s3_module = record {
  imports = "MulterModule" ∷ "DbModule" ∷ "CacheModule" ∷ [];
  controllers = record { provide = "S3Controller"; inject = "S3Service" ∷ [] } ∷ [];
  providers = configured "S3Service" ∷ [];
  exports = "S3Service" ∷ [];
  exported_modules = [];
  is_global = false;
}

abbrev pub slack_module : NestModule
slack_module = record {
  imports = [];
  controllers = [];
  providers = plain "SlackService" ∷ [];
  exports = "SlackService" ∷ [];
  exported_modules = [];
  is_global = false;
}

abbrev pub axios_module : NestModule
axios_module = record {
  imports = [];
  controllers = [];
  providers = plain "AxiosService" ∷ [];
  exports = "AxiosService" ∷ [];
  exported_modules = [];
  is_global = true;
}
