-- ===== src/Statistics.antt =====
-- common/statistics.hpp
use bitmap_comp_framework.Prelude.{ℕ, ◌+◌, ◌%◌, ◌^◌}

pub record RepresentationStats : Type 0 where
  pub literal_units : ℕ
  pub fill_units : ℕ
  pub exception_units : ℕ
  pub control_units : ℕ
  pub array_containers : ℕ
  pub bitmap_containers : ℕ
  pub run_containers : ℕ

abbrev pub no_units : RepresentationStats
no_units = record {
  literal_units = 0;
  fill_units = 0;
  exception_units = 0;
  control_units = 0;
  array_containers = 0;
  bitmap_containers = 0;
  run_containers = 0;
}

-- `+=`
unfoldable pub add_stats : RepresentationStats → RepresentationStats → RepresentationStats
add_stats a b = record {
  literal_units = (a.literal_units + b.literal_units) % 2 ^ 64;
  fill_units = (a.fill_units + b.fill_units) % 2 ^ 64;
  exception_units = (a.exception_units + b.exception_units) % 2 ^ 64;
  control_units = (a.control_units + b.control_units) % 2 ^ 64;
  array_containers = (a.array_containers + b.array_containers) % 2 ^ 64;
  bitmap_containers = (a.bitmap_containers + b.bitmap_containers) % 2 ^ 64;
  run_containers = (a.run_containers + b.run_containers) % 2 ^ 64;
}
