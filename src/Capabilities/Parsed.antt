-- ===== src/Capabilities/Parsed.antt =====
-- printers/capabilities.py: the trays, and the whole dictionary.
use printops.Prelude.{ℕ, ◌+◌, ◌*◌, ◌/◌, ◌&&◌, Option, none, some, List, [], if◌then◌else◌, is_none}
use printops.Printers.{Tray, Capabilities}
use printops.Capabilities.{
  Collection, Attribute, collections, Attributes, get, scalar, values, collect, parse_resolutions,
  parse_copies_max, parse_finishings, parse_airprint_supported, parse_color_supported,
  parse_sides_supported, parse_duplex_supported, parse_collation_supported, parse_firmware_version,
  parse_pin_printing_supported, parse_accounting_supported, parse_tls_supported,
}

-- `round(x / 2540, 2)` in hundredths: the quotient is never halfway between two of them.
abbrev pub hundredths : ℕ → ℕ
hundredths x = (x * 10 + 127) / 254

abbrev pub hundredths_of : Option ℕ → Option ℕ
hundredths_of none = none
hundredths_of (some x) = some (hundredths x)

abbrev pub dimensions : Option (Option ℕ × Option ℕ) → Option ℕ × Option ℕ
dimensions none = (none, none)
dimensions (some (x, y)) = (hundredths_of x, hundredths_of y)

abbrev pub tray_of : Option Collection → Option Tray
tray_of none = none
tray_of (some entry) =
    let (width, height) = dimensions entry.media_size in
    if is_none entry.media_source && is_none width && is_none height
    then none
    else some (record {
      source = entry.media_source;
      type = entry.media_type;
      width_in = width;
      height_in = height;
    })

abbrev pub trays_of : Option Attribute → List Tray
trays_of (some (collections cs)) = collect tray_of cs
trays_of a = []

unfoldable pub parse_media_trays : Attributes → List Tray
unfolding get
parse_media_trays raw = trays_of (get "media-col-ready" raw)

unfoldable pub parse_capabilities : Attributes → Capabilities
unfolding get parse_resolutions parse_copies_max parse_finishings parse_airprint_supported
    parse_color_supported parse_sides_supported parse_duplex_supported parse_collation_supported
    parse_firmware_version parse_pin_printing_supported parse_accounting_supported
    parse_tls_supported parse_media_trays
parse_capabilities raw = record {
  make_model = scalar (get "printer-make-and-model" raw);
  firmware_version = parse_firmware_version raw;
  duplex_supported = parse_duplex_supported raw;
  sides_supported = parse_sides_supported raw;
  color_supported = some (parse_color_supported raw);
  copies_max = parse_copies_max raw;
  resolutions = parse_resolutions raw;
  media_sizes = values "media-supported" raw;
  default_media_size = scalar (get "media-default" raw);
  media_trays = parse_media_trays raw;
  media_sources = values "media-source-supported" raw;
  media_types = values "media-type-supported" raw;
  output_bins = values "output-bin-supported" raw;
  finishings = parse_finishings raw;
  collation_supported = parse_collation_supported raw;
  pin_printing_supported = parse_pin_printing_supported raw;
  accounting_supported = parse_accounting_supported raw;
  document_formats = values "document-format-supported" raw;
  tls_supported = parse_tls_supported raw;
  airprint_supported = parse_airprint_supported raw;
  dns_sd_name = scalar (get "printer-dns-sd-name" raw);
  media_col_broken = none;
}
