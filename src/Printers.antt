-- ===== src/Printers.antt =====
-- models/printer.py: the row of a printer, as far as the modelled services read or write it.
pub mod Sample
use printops.Prelude.{ℕ, String, Bool, Option, List}
use printops.Text.{Text}

pub data PrinterStatus : Type 0 where
  unknown online error offline : PrinterStatus

pub data QuotaMode : Type 0 where
  include exclude : QuotaMode

-- A value of an IPP attribute; `resolution` is a triple whose unit may be left out. The numbers of
-- the attributes that are read are not negative.
pub data Scalar : Type 0 where
  boolean : Bool → Scalar
  integer : ℕ → Scalar
  keyword : String → Scalar
  resolution : ℕ → ℕ → Option ℕ → Scalar

pub record Tray : Type 0 where
  pub source : Option Scalar
  pub type : Option Scalar
  -- hundredths of an inch
  pub width_in : Option ℕ
  pub height_in : Option ℕ

-- The dictionary of `parse_capabilities`, with the key that the discovery adds. A key that a stored
-- dictionary may lack is `none` there.
pub record Capabilities : Type 0 where
  pub make_model : Option Scalar
  pub firmware_version : Option Text
  pub duplex_supported : Bool
  pub sides_supported : List String
  pub color_supported : Option Bool
  pub copies_max : Option ℕ
  pub resolutions : List (ℕ × ℕ × Option ℕ)
  pub media_sizes : List Scalar
  pub default_media_size : Option Scalar
  pub media_trays : List Tray
  pub media_sources : List Scalar
  pub media_types : List Scalar
  pub output_bins : List Scalar
  pub finishings : List Text
  pub collation_supported : Bool
  pub pin_printing_supported : Bool
  pub accounting_supported : Bool
  pub document_formats : List Scalar
  pub tls_supported : Bool
  pub airprint_supported : Option Bool
  pub dns_sd_name : Option Scalar
  pub media_col_broken : Option Bool

-- The JSON column `pending_redirect`.
pub record PendingRedirect : Type 0 where
  pub host : String
  pub port : ℕ
  pub tls : Bool
  pub path : Option String
  pub seen_at : ℕ

-- An entry of the JSON column `network_probe_log`: an instant, whether the probe was answered and
-- its duration in microseconds. `malformed` is an entry that cannot be read.
pub data ProbeEntry : Type 0 where
  entry : ℕ → Bool → Option ℕ → ProbeEntry
  malformed : ProbeEntry

-- The JSON column `pages_not_printed`.
pub record PagesRecord : Type 0 where
  pub shortfall : ℕ
  pub windows : ℕ
  pub jobs : ℕ
  pub documents : List String
  pub since : ℕ
  pub assessed_at : ℕ

pub record Printer : Type 0 where
  pub id : ℕ
  pub name : String
  pub ip_address : Option String
  pub port : ℕ
  pub use_tls : Bool
  pub ipp_path : Option String
  pub ipp_path_detected : Option String
  pub pending_redirect : Option PendingRedirect
  pub manufacturer : Option String
  pub model : Option Scalar
  pub is_virtual : Bool
  pub archived_at : Option ℕ
  pub capabilities : Option Capabilities
  pub capabilities_detected_at : Option ℕ
  pub capabilities_error : Option Text
  pub status : PrinterStatus
  pub status_reasons : Option (List String)
  pub status_message : Option Text
  pub status_checked_at : Option ℕ
  pub last_online_at : Option ℕ
  pub status_probe_failures : ℕ
  pub network_probe_log : List ProbeEntry
  pub pages_not_printed : Option PagesRecord
  pub release_required : Bool
  pub follow_me_enabled : Bool
  pub quota_mode : QuotaMode
  pub queue_sync_error : Option Text
  pub last_auto_queue_sync_at : Option ℕ
  pub auto_queue_sync_failures : ℕ

-- `printer.status == "online"`, `printer.status == "offline"`
abbrev pub is_online : PrinterStatus → Bool
is_online online = Bool.true
is_online _ = Bool.false

abbrev pub is_offline : PrinterStatus → Bool
is_offline offline = Bool.true
is_offline _ = Bool.false
