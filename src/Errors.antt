-- ===== src/Errors.antt =====
-- The exceptions that the modelled code raises: accounts.py, users.py, security.py, crypto.py,
-- auth_protection.py, rate_limit.py, oauth.py, imap_executor.py and the providers, with Python's own
-- exceptions, those of imaplib and imap_tools, and SQLAlchemy's `IntegrityError` where no handler
-- of the code takes them. Messages are left out.
pub data Error : Type 0 where
  account_not_found duplicate_email duplicate_mailbox_name : Error
  verification_not_found verification_expired verification_failed : Error
  reconnect_required_credentials_missing reconnect_required_oauth_refresh_failed : Error
  duplicate_user_email invalid_user_credentials session_not_found api_key_not_found : Error
  token_format credential_cipher value_error key_error type_error integrity_error : Error
  rate_limit_exceeded auth_rate_limited auth_challenge_required auth_challenge_failed : Error
  unsupported_provider_feature message_not_found database_error : Error
  authentication_error provider_error oauth_state_error oauth_exchange_error : Error
  outbound_email_error not_implemented imap_error os_error execution_timeout : Error
  imap_tools_error : Error
