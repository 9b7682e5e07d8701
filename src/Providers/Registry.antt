-- ===== src/Providers/Registry.antt =====
-- src/postara/providers/registry.py: the providers by name, and what each can do.
use postara.Errors.{value_error}
use postara.Exec.{Outcome, returned, raised}
use postara.Prelude.{
  ℕ, String, Bool, Option, none, some, List, [], any, ◌∷◌, ◌==◌, nat_eq, string_eq,
}
use postara.Dict
use postara.Dict.{Dict}

pub record OAuthProviderConfig : Type 0 where
  pub authorization_url : String
  pub token_url : String
  pub userinfo_url : Option String
  pub default_scopes : List String
  pub callback_path : String

pub record ProviderCapabilities : Type 0 where
  pub name : String
  pub display_name : String
  pub supported_auth_types : List String
  pub default_imap_host : Option String
  pub default_imap_port : Option ℕ
  pub oauth : Option OAuthProviderConfig
  pub runtime : String

-- The classes of adapters; `IcloudAdapter` and `OutlookAdapter` raise `NotImplementedError` throughout.
pub data Adapter : Type 0 where
  gmail_adapter icloud_adapter outlook_adapter : Adapter

pub record ProviderRegistry : Type 0 where
  pub adapters : Dict String Adapter
  pub capabilities : Dict String ProviderCapabilities

unfoldable pub supports_auth_type : String → ProviderCapabilities → Bool
supports_auth_type auth_type capabilities =
    any (λ known. known == auth_type) capabilities.supported_auth_types

unfoldable pub register :
    String → Adapter → ProviderCapabilities → ProviderRegistry → ProviderRegistry
register name adapter capabilities registry = record {
  adapters = Dict.put registry.adapters name adapter;
  capabilities = Dict.put registry.capabilities name capabilities;
}

abbrev or_value_error : {A : Type 0} → Option A → Outcome A
or_value_error none = raised value_error
or_value_error (some x) = returned x

unfoldable pub get : ProviderRegistry → String → Outcome Adapter
get registry name = or_value_error (Dict.get registry.adapters name)

unfoldable pub capabilities_for : ProviderRegistry → String → Outcome ProviderCapabilities
capabilities_for registry name = or_value_error (Dict.get registry.capabilities name)

-- The host and the port of `ProviderDefaults`.
pub record ProviderDefaults : Type 0 where
  pub imap_host : String
  pub imap_port : ℕ

abbrev both_defaults : Option String → Option ℕ → Outcome ProviderDefaults
both_defaults (some host) (some port) = returned (record { imap_host = host; imap_port = port })
both_defaults _ _ = raised value_error

abbrev defaults_of : Outcome ProviderCapabilities → Outcome ProviderDefaults
defaults_of (raised e) = raised e
defaults_of (returned capabilities) =
    both_defaults capabilities.default_imap_host capabilities.default_imap_port

unfoldable pub defaults_for : ProviderRegistry → String → Outcome ProviderDefaults
defaults_for registry name = defaults_of (capabilities_for registry name)

abbrev pub gmail_oauth : OAuthProviderConfig
gmail_oauth = record {
  authorization_url = "https://accounts.google.com/o/oauth2/v2/auth";
  token_url = "https://oauth2.googleapis.com/token";
  userinfo_url = some "https://openidconnect.googleapis.com/v1/userinfo";
  default_scopes = "openid" ∷ "email" ∷ "https://mail.google.com/" ∷ [];
  callback_path = "/mailboxes/oauth/gmail/callback";
}

abbrev pub microsoft_oauth : OAuthProviderConfig
microsoft_oauth = record {
  authorization_url = "https://login.microsoftonline.com/common/oauth2/v2.0/authorize";
  token_url = "https://login.microsoftonline.com/common/oauth2/v2.0/token";
  userinfo_url = some "https://graph.microsoft.com/v1.0/me";
  default_scopes =
      "openid" ∷ "email" ∷ "offline_access" ∷ "https://graph.microsoft.com/Mail.Read" ∷ [];
  callback_path = "/mailboxes/oauth/outlook/callback";
}

abbrev pub gmail_capabilities : ProviderCapabilities
gmail_capabilities = record {
  name = "gmail";
  display_name = "Gmail";
  supported_auth_types = "app_password" ∷ "oauth2" ∷ [];
  default_imap_host = some "imap.gmail.com";
  default_imap_port = some 993;
  oauth = some gmail_oauth;
  runtime = "imap_xoauth2";
}

abbrev pub icloud_capabilities : ProviderCapabilities
icloud_capabilities = record {
  name = "icloud";
  display_name = "iCloud Mail";
  supported_auth_types = "app_password" ∷ [];
  default_imap_host = some "imap.mail.me.com";
  default_imap_port = some 993;
  oauth = none;
  runtime = "imap_password";
}

-- Outlook's and Hotmail's differ in their names.
abbrev pub outlook_capabilities : String → String → ProviderCapabilities
outlook_capabilities name display_name = record {
  name = name;
  display_name = display_name;
  supported_auth_types = "oauth2" ∷ [];
  default_imap_host = none;
  default_imap_port = none;
  oauth = some microsoft_oauth;
  runtime = "graph_api";
}

abbrev empty_registry : ProviderRegistry
empty_registry = record { adapters = []; capabilities = [] }

-- `ProviderRegistry.default()`
unfoldable pub default_registry : ProviderRegistry
unfolding register
default_registry = register "hotmail" outlook_adapter (outlook_capabilities "hotmail" "Hotmail") (
    register "outlook" outlook_adapter (outlook_capabilities "outlook" "Outlook") (
      register "icloud" icloud_adapter icloud_capabilities
        (register "gmail" gmail_adapter gmail_capabilities empty_registry)))
