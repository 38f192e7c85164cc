-- ===== src/PageReconcile/Tests.antt =====
-- A printer that swallowed thirty pages, and the theorems at it.
use printops.Prelude.{ℕ, ◌+◌, ◌≡◌, refl, none, some, List, [], ◌∷◌, ltb, if◌then◌else◌}
use printops.Jobs.{Job, forwarded}
use printops.Printers.Sample.{sample_printer}
use printops.Printers.{Printer}
use printops.Counters.{PrinterCounterReading}
use printops.PageReconcile.{
  SentJob, LostWindow, names_of, window_verdict, judged, windows_from, assess, documents_of,
  to_record, recorded_reason, stale_after,
}
use printops.PageReconcile.Evidence.{Judgement, judged-Judgement, recorded_reason-to_record}

abbrev sent_job : ℕ → SentJob
sent_job at = record {
  completed_at = at;
  pages = 10;
  duplex = none;
  document_name = some "worksheet.pdf";
}

abbrev jobs : List SentJob
jobs = sent_job 10 ∷ sent_job 20 ∷ sent_job 30 ∷ []

-- The counter moves by nothing, and by nine.
abbrev readings : List (ℕ × ℕ)
readings = (5, 100) ∷ (25, 100) ∷ (35, 109) ∷ []

abbrev lost : LostWindow
lost = record {
  started_at = 5;
  ended_at = 25;
  expected = 20;
  counted = 0;
  documents = "worksheet.pdf" ∷ "worksheet.pdf" ∷ [];
  jobs = 2;
}

assess-lost : assess readings jobs ≡ some (lost ∷ [])
unfolding assess windows_from judged window_verdict names_of
assess-lost = refl

judged-Judgement_example : Judgement (5, 100) (25, 100) jobs
judged-Judgement_example = judged-Judgement (5, 100) (25, 100) jobs

recorded_reason-to_record_example :
    recorded_reason (some (to_record (lost ∷ []) 35)) 40
    ≡ (if ltb (35 + stale_after) 40 then none else some (20, 1, documents_of (lost ∷ [])))
recorded_reason-to_record_example =
    recorded_reason-to_record readings jobs (lost ∷ []) 35 40 assess-lost

abbrev printer : Printer
printer = record sample_printer { id = 1; name = "ES Copier"; ip_address = none }

abbrev rows : List PrinterCounterReading
rows =
    record {
      printer_id = 1;
      recorded_at = 5;
      page_count_total = some 100;
      page_count_copy = none;
      page_count_print = none;
    }
    ∷ record {
      printer_id = 1;
      recorded_at = 25;
      page_count_total = some 100;
      page_count_copy = none;
      page_count_print = none;
    }
    ∷ []

abbrev job : Job
job = record {
  id = 5;
  printer_id = 1;
  cups_job_id = some 88;
  superseded_by_job_id = none;
  submitted_by = some "ann";
  status = forwarded;
  hold_reason = none;
  error_message = none;
  page_count = some 10;
  submitted_pages = none;
  document_name = none;
  copy_count = none;
  color_mode = none;
  duplex = none;
  paper_size = none;
  created_at = 7;
  completed_at = some 12;
  held_file_path = none;
  held_job_options = none;
}
