-- ===== src/Harness/RunSamples.antt =====
-- The theorems on the loop of the runner and on the search in the memory at concrete inputs.
use mathlib.Core.List.{Perm}
use computer_use_orchestrato.Prelude.{
  select, strip, false, ℕ, ◌+◌, String, ◌≡◌, refl, true, Option, none, some, List, [], ◌∷◌, take,
}
use computer_use_orchestrato.Json.{Fields, end}
use computer_use_orchestrato.Harness.Runner.{Port, Run, Limits}
use computer_use_orchestrato.Harness.Checkpoint.{Files, absent, loaded, load_checkpoint}
use computer_use_orchestrato.Harness.RunLoop.{run_loop}
use computer_use_orchestrato.Harness.RunLoop.Resume.{run_loop-resume}
use computer_use_orchestrato.Harness.Memory.{MemoryRow, MemoryFile, blank, memories, read_records}
use computer_use_orchestrato.Harness.Memory.Start.{new_memory_layer}
use computer_use_orchestrato.Harness.Memory.Search.{search}
use computer_use_orchestrato.Harness.Memory.Search.Ranking.{
  matching, has_shared, IsRanked, search-IsRanked,
}

-- A memory that counts what it is told.
abbrev counter : Port
counter = record {
  Memory = ℕ;
  signature = λ g e. e.summary;
  recall = λ text limit m. m;
  save = λ g e m. (m + 1, true);
}

abbrev limits : Limits
limits = record {
  memory_recall_limit = 5;
  max_retries = 3;
  evaluation_gates = none;
  min_observations_for_pass = 2;
}

abbrev morning : ℕ → String
morning i = "2026-01-01T08:00:00+00:00"

abbrev evening : ℕ → String
evening i = "2026-01-01T20:00:00+00:00"

abbrev no_files : Files
no_files name = none

nothing_there : (load_checkpoint "goal/1" "20260101T000000Z" no_files).1 ≡ absent
unfolding load_checkpoint
nothing_there = refl

abbrev stopped : Files × Option (Run counter)
stopped = run_loop limits morning "goal/1" "tidy up" none 3 none "20260101T000000Z" no_files

abbrev resumed : Files × Option (Run counter)
resumed = run_loop limits evening "goal/1" "tidy up" none 4 none "20260101T000000Z" stopped.0

abbrev uncut : Files × Option (Run counter)
uncut = run_loop limits morning "goal/1" "tidy up" none (3 + 4) none "20260101T000000Z" no_files

run_loop-resume_example :
    (end : Run counter) × (resumed.1 ≡ some end)
    × (uncut.1 ≡ some end)
    × ((load_checkpoint "goal/1" "20260101T000000Z" resumed.0).1 ≡ loaded end.state)
    × ((load_checkpoint "goal/1" "20260101T000000Z" uncut.0).1 ≡ loaded end.state)
run_loop-resume_example =
    run_loop-resume limits "goal/1" "tidy up" "20260101T000000Z" morning evening morning 3 4
      no_files nothing_there

abbrev row : String → String → MemoryRow
row text created_at = record {
  id = "memory-1";
  user_id = "demo";
  text = text;
  metadata = end;
  created_at = created_at;
}

abbrev three_rows : MemoryFile
three_rows =
    memories (row "a red door" "3" ∷ row "an open window" "1" ∷ row "an open red door" "2" ∷ [])

abbrev no_text : Fields → String
no_text d = "{}"

abbrev found : List MemoryRow
found = search (λ s. s) no_text "open the red door" "demo" 2 three_rows

-- Both words of the third row and one more come first, then the two of the first.
found_is : found ≡ row "an open red door" "2" ∷ row "a red door" "3" ∷ []
unfolding search
found_is = refl

search-IsRanked_example :
    (ranking : List MemoryRow) × (found ≡ take 2 ranking)
    × Perm ranking (matching (λ s. s) no_text "open the red door" "demo" (read_records three_rows))
    × IsRanked (λ s. s) no_text "open the red door" ranking
    × ((n : ℕ) (time : String)
        → select (has_shared (λ s. s) no_text "open the red door" n time) ranking
          ≡ select
              (has_shared (λ s. s) no_text "open the red door" n time)
              (matching (λ s. s) no_text "open the red door" "demo" (read_records three_rows)))
search-IsRanked_example = search-IsRanked (λ s. s) no_text "open the red door" "demo" 2 three_rows

-- A key of Anthropic is not one of mem0.
wrong_key :
    (new_memory_layer false none none " sk-ant-1 " none blank).fallback_reason
    ≡ some "OPENAI_API_KEY is absent or not valid for mem0"
unfolding new_memory_layer strip
wrong_key = refl
