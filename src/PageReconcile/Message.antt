-- ===== src/PageReconcile/Message.antt =====
-- printers/page_reconcile.py: the sentence of a verdict.
use printops.Prelude.{ℕ, ◌-◌, String, List, [], ◌∷◌, ◌++◌, ◌==◌, if◌then◌else◌, take, length}
use printops.Text.{Text, lit, num}

abbrev pub max_documents_named : ℕ
max_documents_named = 3

-- `", ".join(f'"{name}"' for name in named)`
unfoldable pub listed : List String → Text
listed [] = []
listed (name ∷ []) = lit "\"" ∷ lit name ∷ lit "\"" ∷ []
listed (name ∷ next ∷ names) = lit "\"" ∷ lit name ∷ lit "\", " ∷ listed (next ∷ names)

abbrev pub also_of : ℕ → Text
also_of more =
    if more == 0
    then []
    else lit ", and "
      ∷ num more
      ∷ lit (if more == 1 then " other document" else " other documents")
      ∷ []

abbrev pub documents_text : List String → Text
documents_text [] = []
documents_text (d ∷ documents) =
    lit " The jobs involved were "
    ∷ (listed (take max_documents_named (d ∷ documents))
        ++ (also_of (length (d ∷ documents) - max_documents_named) ++ (lit "." ∷ [])))

abbrev pub where_text : ℕ → Text
where_text window_count =
    if window_count == 1
    then lit "one half-hour window" ∷ []
    else num window_count ∷ lit " half-hour windows" ∷ []

-- `_reason`, of the three numbers that `recorded_reason` and `unprinted_reason` pass to it
unfoldable pub reason : ℕ × ℕ × List String → Text
unfolding listed
reason (pages, window_count, documents) =
    num pages
    ∷ lit (if pages == 1 then " page" else " pages")
    ∷ lit " PrintOps sent to this printer in the last 24 hours cannot be accounted for: across "
    ∷ (where_text window_count
        ++ (lit
              " its own page counter moved far less than the jobs delivered in that time should have moved it."
            ∷ (documents_text documents
                ++ (lit
                      " A printer that accepts a job, reports it completed and prints nothing is usually its firmware declining to render the file rather than a fault you can see on the device — which means the same document will keep failing while everything else prints normally. Worth reprinting one of these from a different application to confirm before changing anything about the queue."
                    ∷ []))))
