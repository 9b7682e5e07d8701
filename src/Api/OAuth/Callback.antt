-- ===== src/Api/OAuth/Callback.antt =====
-- Forged and expired states at `oauth_callback` of src/postara/api.py.
use postara.Errors.{Error}
use postara.Exec.{returned, raised, Outcome-cases}
use postara.Prelude.{
  ℕ, String, refl, sym, subst, inl, inr, Bool, false, Option, some, arith, string_eq, Bool-cases,
  Option-cases, ◌≡◌, ◌⊎◌, ◌||◌, ◌==◌,
}
use postara.OAuth
use postara.OAuth.{OAuthState}
use postara.OAuth.State.{IsSigned, verify-IsSigned}
use postara.Providers.Registry.{ProviderCapabilities, capabilities_for}
use postara.Api.{try_except, App, World, Response, Request, Moment, or_text}
use postara.Api.Access.{Route}
use postara.Api.OAuth.{
  after_callback, callback_for, OAuthSetting, redirect_error, oauth_of, callback_error,
  oauth_callback,
}

not_empty : (s : String) → (or_text (some s) "" == "") ≡ false → or_text (some s) "" ≡ s
not_empty s h = elim (Bool-cases (s == "")) [
  | inl empty ↦
      subst (λ (t : String). or_text (some t) "" ≡ t) (sym ((string_eq.beq_iff s "").0 empty)) refl
  | inr full ↦ rw (full) refl
]

or_false_right : (a b : Bool) → (a || b) ≡ false → b ≡ false
or_false_right a b h = ground (arith, h)

module _ (app : App) (o : OAuthSetting) (a : Moment) where
  -- A route that changes nothing and redirects with an error, or raises.
  abbrev IsSentBack : Route app a Response → World app.store.State app.runtime.State → Type 0
  IsSentBack x w =
      ((reason : String) × (x w ≡ (returned (redirect_error reason), w)))
      ⊎ ((e : Error) × (x w ≡ (raised e, w)))

  refused_for :
      (provider code raw_state : String) (request : Request) (capabilities : ProviderCapabilities)
      (e : Error) (w : World app.store.State app.runtime.State)
      → OAuth.verify o.codec (a.account 0).now raw_state provider ≡ raised e
      → IsSentBack (callback_for app o a provider code raw_state request capabilities) w
  refused_for provider code raw_state request capabilities e w bad =
      elim (Option-cases (oauth_of capabilities)) [
        | inl missing ↦ inl ("oauth_not_supported", rw (callback_for, missing) refl)
        | inr (config, held) ↦ inr (e, rw (callback_for, held, bad) refl)
      ]

  sent_back :
      (x : Route app a Response) (w : World app.store.State app.runtime.State)
      → IsSentBack x w
      → (reason : String) × (try_except x (after_callback app o a) w
          ≡ (returned (redirect_error reason), w))
  sent_back x w (inl (reason, is)) = (reason, rw (try_except, is) refl)
  sent_back x w (inr (e, is)) = (callback_error e, rw (try_except, is) refl)

  refused_state :
      (provider : String) (code : Option String) (raw_state : String) (request : Request)
      (e : Error) (w : World app.store.State app.runtime.State)
      → OAuth.verify o.codec (a.account 0).now raw_state provider ≡ raised e
      → (reason : String) × (oauth_callback app o a provider code (some raw_state) request w
          ≡ (returned (redirect_error reason), w))
  unfolding oauth_callback
  refused_state provider code raw_state request e w bad =
      elim (Bool-cases ((or_text code "" == "") || (or_text (some raw_state) "" == ""))) [
        | inl empty ↦ ("oauth_callback_invalid", rw (oauth_callback, empty) refl)
        | inr given ↦
            let is : raw_state ≡ or_text (some raw_state) "" = sym (
              not_empty raw_state (
                or_false_right (or_text code "" == "") (or_text (some raw_state) "" == "")
                  given)) in
            let bad_text =
              subst (λ (s : String). OAuth.verify o.codec (a.account 0).now s provider ≡ raised e)
                is bad in
            elim (Outcome-cases (capabilities_for app.registry provider)) [
              | inl (x, unknown) ↦ (callback_error x, rw (oauth_callback, given, unknown) refl)
              | inr (capabilities, known) ↦
                  let (reason, back) =
                    sent_back
                      (callback_for app o a provider (or_text code "") (or_text (some raw_state) "")
                        request capabilities)
                      w
                      (refused_for provider (or_text code "") (or_text (some raw_state) "") request
                        capabilities e w bad_text) in
                  (reason, rw (oauth_callback, given, known) back)
            ]
      ]

  -- A callback with a state that no key of the codec has signed is sent back with an error, and
  -- changes nothing.
  pub oauth_callback_forged :
      (provider : String) (code : Option String) (raw_state : String) (request : Request)
      (w : World app.store.State app.runtime.State)
      → ((version : ℕ) (signature : String)
          → ¬ IsSigned o.codec raw_state version signature signature)
      → (reason : String) × (oauth_callback app o a provider code (some raw_state) request w
          ≡ (returned (redirect_error reason), w))
  oauth_callback_forged provider code raw_state request w forged =
      elim (Outcome-cases (OAuth.verify o.codec (a.account 0).now raw_state provider)) [
        | inl (e, bad) ↦ refused_state provider code raw_state request e w bad
        | inr (state, good) ↦
            let (signature, signed, _, _) =
              verify-IsSigned o.codec (a.account 0).now raw_state provider state good in
            let absurd : ⊥ = forged state.version signature signed in elim absurd [ ]
      ]
