-- ===== src/Datasets.antt =====
-- The filter of a dataset's perimeter: its normal form and its compilation to the conditions of a
-- query. app/data_sources/services/dataset_perimeter_compiler.py
pub mod Filter
pub mod Compile
pub mod Query
mod Tests
