-- ===== src/Models/Summary.antt =====
-- The counters of a run: `TypeSummary` and `RunSummary` of src/models.py. The code changes one
-- summary in place; here each change returns the new one.
use claude_azure_o11y.Prelude.{
  ℕ, ◌+◌, ◌≡◌, none, some, String, List, [], arith, ◌==◌, string_eq, if◌then◌else◌,
}
use claude_azure_o11y.Prelude.Dict
use claude_azure_o11y.Prelude.Dict.{Dict, lookup-insert}
use claude_azure_o11y.Models.{Resource, Time}

pub record TypeSummary : Type 0 where
  pub inventory_total : ℕ
  pub kept : ℕ
  pub evaluated : ℕ
  pub findings : ℕ
  pub chunk_failures : ℕ

abbrev pub empty_type : TypeSummary
empty_type = record {
  inventory_total = 0;
  kept = 0;
  evaluated = 0;
  findings = 0;
  chunk_failures = 0;
}

pub record RunSummary (F : Type 0) : Type 0 where
  pub mg_id : String
  pub mode : String
  pub started_at : Time
  pub inventory_total : ℕ
  pub evaluated : ℕ
  pub findings : ℕ
  pub rows_written : ℕ
  pub write_failures : ℕ
  pub skips : Dict String ℕ
  pub ignored_rg_count : ℕ
  pub excluded : List (Resource F)
  pub chunk_failures : ℕ
  pub type_failures : ℕ
  pub by_type : Dict String TypeSummary
  pub destinations : Dict String String

module _ {F : Type 0} where
  abbrev pub new_summary : String → String → Time → RunSummary F
  new_summary mg mode now = record {
    mg_id = mg;
    mode = mode;
    started_at = now;
    inventory_total = 0;
    evaluated = 0;
    findings = 0;
    rows_written = 0;
    write_failures = 0;
    skips = [];
    ignored_rg_count = 0;
    excluded = [];
    chunk_failures = 0;
    type_failures = 0;
    by_type = [];
    destinations = [];
  }

  -- `self.skips.get(reason, 0)`
  unfoldable pub skipped : RunSummary F → String → ℕ
  skipped s reason = elim (Dict.lookup reason s.skips) [ none ↦ 0 | some n ↦ n ]

  -- `RunSummary.count_skip`
  unfoldable pub count_skip : String → RunSummary F → RunSummary F
  unfolding skipped
  count_skip reason s = record s { skips = Dict.insert reason (skipped s reason + 1) s.skips }

  -- `RunSummary.for_type`, for its effect on `by_type`.
  unfoldable pub for_type : String → RunSummary F → RunSummary F
  for_type kind s = record s { by_type = Dict.set_default kind empty_type s.by_type }

  -- A change of the object that `for_type` returned: it is shared with `by_type`.
  unfoldable pub update_type : String → (TypeSummary → TypeSummary) → RunSummary F → RunSummary F
  update_type kind f s = elim (Dict.lookup kind s.by_type) [
    | none ↦ s
    | some t ↦ record s { by_type = Dict.insert kind (f t) s.by_type }
  ]

  -- `count_skip` raises the count of its reason by one and leaves that of every other reason; a reason
  -- that was not counted counts as 0.
  pub skipped-count_skip :
      (reason other : String) (s : RunSummary F)
      → skipped (count_skip reason s) other ≡ skipped s other + (if reason == other then 1 else 0)
  unfolding count_skip
  skipped-count_skip reason other s = ground (
    arith,
    lookup-insert reason other (skipped s reason + 1) s.skips,
    string_eq.same_iff reason other,
  )
