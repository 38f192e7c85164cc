-- ===== src/Counters.antt =====
-- models/snmp.py: the readings of a printer's page counters.
use printops.Prelude.{ℕ, Option}

-- A row of printer_counter_readings.
pub record PrinterCounterReading : Type 0 where
  pub printer_id : ℕ
  pub recorded_at : ℕ
  pub page_count_total : Option ℕ
  pub page_count_copy : Option ℕ
  pub page_count_print : Option ℕ
