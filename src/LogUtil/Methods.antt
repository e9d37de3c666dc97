-- ===== src/LogUtil/Methods.antt =====
-- The methods of a logger in src/utils/log/log.modules.ts, one for each level.
use nestjs_stay_api.Common.{List, String}
use nestjs_stay_api.LogUtil
use nestjs_stay_api.LogUtil.{LogMessage, LogCall, log}

module _ (format : List LogMessage → String) where
  unfoldable pub emerg : List LogMessage → List LogCall
  unfolding log
  emerg = log format LogUtil.emerg

  unfoldable pub alert : List LogMessage → List LogCall
  unfolding log
  alert = log format LogUtil.alert

  unfoldable pub crit : List LogMessage → List LogCall
  unfolding log
  crit = log format LogUtil.crit

  unfoldable pub error : List LogMessage → List LogCall
  unfolding log
  error = log format LogUtil.error

  unfoldable pub warning : List LogMessage → List LogCall
  unfolding log
  warning = log format LogUtil.warning

  unfoldable pub notice : List LogMessage → List LogCall
  unfolding log
  notice = log format LogUtil.notice

  unfoldable pub info : List LogMessage → List LogCall
  unfolding log
  info = log format LogUtil.info

  unfoldable pub debug : List LogMessage → List LogCall
  unfolding log
  debug = log format LogUtil.debug
