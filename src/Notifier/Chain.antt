-- ===== src/Notifier/Chain.antt =====
-- cloud/notifications/chain.py: the providers in order, until one of them has sent.
use factory_monitor.Base.{
  String, Bool, true, false, ◌||◌, Option, none, some, List, [], ◌∷◌, str_eq, if◌then◌else◌,
}
use factory_monitor.Base.Outcome.{Outcome, Error, ok, err, ◌>>=◌}
use factory_monitor.Notifier.Provider.{SendStatus, ProviderResult, Request, Provider}

abbrev pub is_sent : SendStatus → Bool
is_sent SendStatus.sent = true
is_sent _ = false

-- The loop of `ProviderChain.send`; `last` is `last_result`.
unfoldable pub try_providers :
    Option ProviderResult → List Provider → Request → Outcome ProviderResult
try_providers none [] request = err Error.assertion_error
try_providers (some last) [] request = ok last
try_providers last (provider ∷ rest) request = elim (provider request) [
  | err e ↦ err e
  | ok result ↦
      if is_sent result.status then ok result else try_providers (some result) rest request
]

unfoldable pub chain_send : List Provider → Request → Outcome ProviderResult
unfolding try_providers
chain_send [] request = err Error.value_error
chain_send (p ∷ ps) request = try_providers none (p ∷ ps) request

-- The settings that `build_provider_chain` reads.
pub record TwilioSettings : Type 0 where
  pub account_sid : Option String
  pub auth_token : Option String
  pub whatsapp_from : Option String
  pub sms_from : Option String

-- `not s`, for an optional text.
abbrev pub is_missing : Option String → Bool
is_missing none = true
is_missing (some s) = str_eq s ""

pub data ProviderName : Type 0 where
  console whatsapp sms : ProviderName

-- The branch for one name of `notify_provider_chain`, stripped and lowered.
unfoldable pub named_provider : TwilioSettings → String → Outcome ProviderName
named_provider cfg name =
    if str_eq name "console"
    then ok ProviderName.console
    else if str_eq name "whatsapp"
    then (if is_missing cfg.account_sid
          || (is_missing cfg.auth_token || is_missing cfg.whatsapp_from)
        then err Error.value_error
        else ok ProviderName.whatsapp)
    else if str_eq name "sms"
    then (if is_missing cfg.account_sid || (is_missing cfg.auth_token || is_missing cfg.sms_from)
        then err Error.value_error
        else ok ProviderName.sms)
    else err Error.value_error

unfoldable pub named_providers : TwilioSettings → List String → Outcome (List ProviderName)
unfolding named_provider
named_providers cfg [] = ok []
named_providers cfg (name ∷ rest) = do
  p ← named_provider cfg name
  ps ← named_providers cfg rest
  ok (p ∷ ps)

-- `names` is the setting split at commas, each part stripped and lowered, the empty ones left out.
unfoldable pub build_provider_chain : TwilioSettings → List String → Outcome (List ProviderName)
unfolding named_providers
build_provider_chain cfg [] = err Error.value_error
build_provider_chain cfg (name ∷ rest) = named_providers cfg (name ∷ rest)
