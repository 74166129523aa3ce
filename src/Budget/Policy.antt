-- ===== src/Budget/Policy.antt =====
-- bothy/budget.py: prices, token counts and the caps. Dollars and percents are counted in whole
-- micro-units, so 2.0 dollars is 2_000_000; a price is micro-dollars for a million tokens.
use bothy.Common.{ℕ, zero, ◌+◌, ◌*◌, ◌/◌, String, Option, none, some}
use bothy.Dict
use bothy.Dict.{Dict}

pub data Mode : Type 0 where
  api subscription : Mode

pub record Usage : Type 0 where
  pub input_tokens : ℕ
  pub cached_input_tokens : ℕ
  pub cache_write_tokens : ℕ
  pub output_tokens : ℕ
  pub reasoning_output_tokens : ℕ

-- Python's `a or b`, for a number that may be absent: zero counts as absent
unfoldable pub or_count : Option ℕ → ℕ → ℕ
or_count none d = d
or_count (some zero) d = d
or_count (some n) d = n

count_field : Dict ℕ → String → String → ℕ
count_field block camel snake = or_count (Dict.get block camel) (or_count (Dict.get block snake) 0)

-- the block's values are token counts; what is no number is not modelled
unfoldable pub from_app_server : Dict ℕ → Usage
unfolding count_field or_count Dict.get
from_app_server block = record {
  input_tokens = count_field block "inputTokens" "input_tokens";
  cached_input_tokens = count_field block "cachedInputTokens" "cached_input_tokens";
  cache_write_tokens = count_field block "cacheWriteInputTokens" "cache_write_input_tokens";
  output_tokens = count_field block "outputTokens" "output_tokens";
  reasoning_output_tokens = count_field block "reasoningOutputTokens" "reasoning_output_tokens";
}

pub record Pricing : Type 0 where
  pub input : ℕ
  pub cached_input : ℕ
  pub cache_write : ℕ
  pub output : ℕ

-- the sum over the kinds, before it is divided by a million tokens
unfoldable pub weighted : Pricing → Usage → ℕ
weighted p u =
    u.input_tokens * p.input
    + u.cached_input_tokens * p.cached_input
    + u.cache_write_tokens * p.cache_write
    + u.output_tokens * p.output

-- rounded down to a micro-dollar
unfoldable pub cost : Pricing → Usage → ℕ
unfolding weighted
cost p u = weighted p u / 1000000

abbrev pub default_pricing : Pricing
default_pricing = record {
  input = 1250000;
  cached_input = 125000;
  cache_write = 1562500;
  output = 10000000;
}

-- `reservation_ttl` is in microseconds, as every span of time here
pub record BudgetPolicy : Type 0 where
  pub mode : Mode
  pub per_run_usd : ℕ
  pub per_day_usd : ℕ
  pub model_pricing : String
  pub per_run_percent : ℕ
  pub ceiling_percent : ℕ
  pub reservation_ttl : ℕ

unfoldable pub unit : BudgetPolicy → String
unit p = elim p.mode [ api ↦ "usd" | subscription ↦ "percent" ]

unfoldable pub per_run : BudgetPolicy → ℕ
per_run p = elim p.mode [ api ↦ p.per_run_usd | subscription ↦ p.per_run_percent ]

unfoldable pub ceiling : BudgetPolicy → ℕ
ceiling p = elim p.mode [ api ↦ p.per_day_usd | subscription ↦ p.ceiling_percent ]

unfoldable pub cap_name : BudgetPolicy → String
cap_name p = elim p.mode [ api ↦ "per_day_usd" | subscription ↦ "ceiling_percent" ]
