-- ===== src/Transport.antt =====
-- transport_errors.go: how an error of the transport is classified. An error is what `errors.Is` and
-- `errors.As` find in it; a context is its error and whether its deadline has passed.
pub mod Outcomes
pub mod Requests
pub mod Exchange
pub mod WellFormed
pub mod Replays
pub mod Reuse
use repost_go.Errors.{ErrorCode, FailureReason}
use repost_go.Prelude.{Bool, true, false, not, ◌&&◌, ◌||◌, Option, none, some, if◌then◌else◌}

pub data Ended : Type 0 where
  running deadline_exceeded cancelled : Ended

-- `deadlineReached` is read off the context's deadline and the clock.
pub record Context : Type 0 where
  pub ended : Ended
  pub deadline_reached : Bool

-- `x509.CertificateInvalidError`: whether the reason is `Expired`, and whether the certificate is there
-- and begins only behind the clock.
pub record InvalidCertificate : Type 0 where
  pub expired : Bool
  pub begins_later : Bool

pub record CertificateCause : Type 0 where
  pub hostname : Bool
  pub invalid : Option InvalidCertificate
  pub unknown_authority : Bool
  pub system_roots : Bool

pub record DnsCause : Type 0 where
  pub is_timeout : Bool
  pub is_not_found : Bool

pub record Cause : Type 0 where
  pub is_deadline : Bool
  pub is_cancelled : Bool
  pub dns : Option DnsCause
  -- what `tls.CertificateVerificationError` wraps
  pub verification : Option CertificateCause
  pub certificate : CertificateCause
  pub record_header : Bool
  pub alert : Bool
  pub refused : Bool
  pub reset : Bool
  pub broken_pipe : Bool
  pub eof : Bool
  pub unexpected_eof : Bool
  pub closed_pipe : Bool
  pub net_closed : Bool
  pub timeout : Bool

abbrev pub no_certificate_cause : CertificateCause
no_certificate_cause = record {
  hostname = false;
  invalid = none;
  unknown_authority = false;
  system_roots = false;
}

-- An error in which nothing is found, as an error of the package's own.
abbrev pub plain_cause : Cause
plain_cause = record {
  is_deadline = false;
  is_cancelled = false;
  dns = none;
  verification = none;
  certificate = no_certificate_cause;
  record_header = false;
  alert = false;
  refused = false;
  reset = false;
  broken_pipe = false;
  eof = false;
  unexpected_eof = false;
  closed_pipe = false;
  net_closed = false;
  timeout = false;
}

unfoldable pub classify_certificate_error : CertificateCause → FailureReason × Bool
classify_certificate_error c =
    if c.hostname then (FailureReason.tls_hostname_mismatch, true) else elim c.invalid [
      | some i ↦
          if i.expired
          then (if i.begins_later
              then (FailureReason.tls_certificate_not_yet_valid, true)
              else (FailureReason.tls_certificate_expired, true))
          else (FailureReason.tls_untrusted, true)
      | none ↦
          if c.unknown_authority || c.system_roots
          then (FailureReason.tls_untrusted, true)
          else (FailureReason.tls_untrusted, false)
    ]

abbrev pub context_deadline : Ended → Bool
context_deadline Ended.deadline_exceeded = true
context_deadline _ = false

abbrev pub context_cancelled : Ended → Bool
context_cancelled Ended.cancelled = true
context_cancelled _ = false

-- `classifyTransportCause` behind the tests for a certificate.
unfoldable pub classify_io_cause : Cause → ErrorCode × FailureReason
classify_io_cause c =
    if c.record_header || c.alert
    then (ErrorCode.tls, FailureReason.tls_negotiation)
    else if c.refused
    then (ErrorCode.connect, FailureReason.connect_refused)
    else if c.reset || c.broken_pipe || c.eof
    then (ErrorCode.io, FailureReason.connection_reset)
    else if c.unexpected_eof || c.closed_pipe || c.net_closed
    then (ErrorCode.io, FailureReason.connection_closed)
    else if c.timeout
    then (ErrorCode.connect, FailureReason.connect_timeout)
    else (ErrorCode.io, FailureReason.unknown)

unfoldable pub classify_transport_cause : Context → Cause → ErrorCode × FailureReason
unfolding classify_certificate_error classify_io_cause
classify_transport_cause ctx c =
    if ctx.deadline_reached || context_deadline ctx.ended || c.is_deadline
    then (ErrorCode.attempt_timeout, FailureReason.unknown)
    else if context_cancelled ctx.ended || c.is_cancelled
    then (ErrorCode.cancelled, FailureReason.unknown)
    else elim c.dns [
      | some d ↦
          if d.is_timeout
          then (ErrorCode.dns, FailureReason.dns_timeout)
          else if d.is_not_found
          then (ErrorCode.dns, FailureReason.dns_not_found)
          else (ErrorCode.dns, FailureReason.unknown)
      | none ↦ elim c.verification [
        | some v ↦ (ErrorCode.tls, (classify_certificate_error v).0)
        | none ↦
            if (classify_certificate_error c.certificate).1
            then (ErrorCode.tls, (classify_certificate_error c.certificate).0)
            else classify_io_cause c
      ]
    ]

-- `staleH1Failure`
unfoldable pub stale_h1_failure : Cause → Bool
stale_h1_failure c = c.eof || c.unexpected_eof || c.net_closed || c.reset
