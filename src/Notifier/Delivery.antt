-- ===== src/Notifier/Delivery.antt =====
-- What the chain of providers delivers (`ProviderChain.send` of cloud/notifications/chain.py).
use factory_monitor.Base.{
  ◌≡◌, refl, inl, inr, Bool, Option, none, some, List, [], ◌∷◌, map, find?, Bool-cases,
}
use factory_monitor.Base.Outcome.{ok}
use factory_monitor.Notifier.Provider.{ProviderResult, Request, Provider}
use factory_monitor.Notifier.Chain.{is_sent, try_providers, chain_send}

-- Providers that answer, as all of this program do.
abbrev pub answering : (Request → ProviderResult) → Provider
answering answer request = ok (answer request)

abbrev pub answers : List (Request → ProviderResult) → Request → List ProviderResult
answers ps request = map (λ (p : Request → ProviderResult). p request) ps

abbrev pub last_of : ProviderResult → List ProviderResult → ProviderResult
last_of r [] = r
last_of r (s ∷ rest) = last_of s rest

abbrev pub was_sent : ProviderResult → Bool
was_sent r = is_sent r.status

abbrev pub or_else : Option ProviderResult → ProviderResult → ProviderResult
or_else none r = r
or_else (some s) r = s

-- The first result that was sent, or else the last one.
abbrev pub delivered : ProviderResult → List ProviderResult → ProviderResult
delivered r rest = or_else (find? was_sent (r ∷ rest)) (last_of r rest)

abbrev after_unsent : ProviderResult → List ProviderResult → ProviderResult
after_unsent r rest = or_else (find? was_sent rest) (last_of r rest)

try_providers-answers :
    (ps : List (Request → ProviderResult)) (r : ProviderResult) (request : Request)
    → try_providers (some r) (map answering ps) request ≡ ok (after_unsent r (answers ps request))
unfolding try_providers
try_providers-answers [] r request = refl
try_providers-answers (p ∷ ps) r request = elim (Bool-cases (was_sent (p request))) [
  | inl e ↦ rw e refl
  | inr e ↦ rw e (try_providers-answers ps (p request) request)
]

-- With providers that answer, at least one, the chain always returns: the result of the first
-- provider that has sent, or that of the last provider if none has.
pub chain_send_lem :
    (p : Request → ProviderResult) (ps : List (Request → ProviderResult)) (request : Request)
    → chain_send (map answering (p ∷ ps)) request ≡ ok (delivered (p request) (answers ps request))
unfolding chain_send try_providers
chain_send_lem p ps request = elim (Bool-cases (was_sent (p request))) [
  | inl e ↦ rw e refl
  | inr e ↦ rw e (try_providers-answers ps (p request) request)
]
