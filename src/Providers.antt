-- ===== src/Providers.antt =====
-- The factories that make the shared objects from the configuration: src/utils/db/db.modules.ts,
-- src/utils/queue/queue.module.ts and src/utils/aws/sqs/sqs.module.ts. A missing part of the
-- configuration is `none`. Nest calls a factory once, and then `onModuleInit` and `onModuleDestroy`
-- of what it gave.
pub mod Connections
use nestjs_stay_api.Common.{ℕ, false, Option, none, some, List, String}
use nestjs_stay_api.Cache.{RedisConfig}
use nestjs_stay_api.Smtp.{SmtpConfig}
use nestjs_stay_api.S3.{AwsS3Config}
use nestjs_stay_api.Postgres.{PgConfig, PgConnectMode, read_only, read_write}
use nestjs_stay_api.Postgres.Pool.{PgSlonik, pg_slonik}
use nestjs_stay_api.Mongo
use nestjs_stay_api.Mongo.{MongoConfig, MongoUtil, mongo_util, connect}
use nestjs_stay_api.Bull
use nestjs_stay_api.Bull.{BullMqConfig, BullMqUtil, bull_mq_util, on_module_init}
use nestjs_stay_api.Sqs
use nestjs_stay_api.Sqs.{AwsSqsConfig, SqsUtil, sqs_util}

pub record Ports : Type 0 where
  pub api : ℕ
  pub websocket : ℕ

-- `StayConfig`; the groups `message` and `aws` are spread out.
pub record StayConfig : Type 0 where
  pub cors_whitelist : List String
  pub rw_pg_config : Option PgConfig
  pub ro_pg_config : Option PgConfig
  pub mongo_config : Option MongoConfig
  pub bull_mq_config : Option BullMqConfig
  pub sqs_config : Option AwsSqsConfig
  pub common_redis_config : Option RedisConfig
  pub smtp_config : Option SmtpConfig
  pub s3 : Option AwsS3Config
  pub port : Option Ports

abbrev pub pg_util_default_timeout : ℕ
pg_util_default_timeout = 5000

abbrev pub bull_mail_queue : String
bull_mail_queue = "BULL_MAIL_QUEUE"

abbrev pub bull_push_queue : String
bull_push_queue = "BULL_PUSH_QUEUE"

-- `rwPgUtilProvider` and `roPgUtilProvider`; `none` is the error of the constructor.
unfoldable pub rw_pg_util_provider : {P : Type 0} → StayConfig → Option (PgSlonik P)
unfolding pg_slonik
rw_pg_util_provider config = pg_slonik config.rw_pg_config pg_util_default_timeout read_write

unfoldable pub ro_pg_util_provider : {P : Type 0} → StayConfig → Option (PgSlonik P)
unfolding pg_slonik
ro_pg_util_provider config = pg_slonik config.ro_pg_config pg_util_default_timeout read_only

-- `mongoUtilProvider`, with what `createConnection` gives
unfoldable pub mongo_util_provider :
    {C : Type 0} → StayConfig → Option C → Mongo.Outcome (MongoUtil C)
unfolding mongo_util connect
mongo_util_provider config c = elim (mongo_util config.mongo_config) [
  | Mongo.Outcome.thrown e ↦ Mongo.Outcome.thrown e
  | Mongo.Outcome.returned u ↦
      let (u', outcome) = connect c u in
      elim outcome [
        | Mongo.Outcome.thrown e ↦ Mongo.Outcome.thrown e
        | Mongo.Outcome.returned _ ↦ Mongo.Outcome.returned u'
      ]
]

-- What the factories of queues share: the object, after its `onModuleInit`, in a given store
unfoldable pub queue_provider : {S : Type 0} → String → StayConfig → S → Bull.Outcome (Bull.World S)
unfolding bull_mq_util on_module_init
queue_provider name config s = elim (bull_mq_util config.bull_mq_config name) [
  | Bull.Outcome.thrown e ↦ Bull.Outcome.thrown e
  | Bull.Outcome.returned u ↦
      let w : Bull.World _ = record { util = u; closed = false; failures = 0; store = s } in
      Bull.Outcome.returned (on_module_init w)
]

unfoldable pub email_queue_provider : {S : Type 0} → StayConfig → S → Bull.Outcome (Bull.World S)
unfolding queue_provider
email_queue_provider = queue_provider bull_mail_queue

unfoldable pub push_queue_provider : {S : Type 0} → StayConfig → S → Bull.Outcome (Bull.World S)
unfolding queue_provider
push_queue_provider = queue_provider bull_push_queue

-- `sqsUtilProvider`
unfoldable pub sqs_util_provider : StayConfig → Sqs.Outcome SqsUtil
unfolding sqs_util
sqs_util_provider config = sqs_util config.sqs_config none
