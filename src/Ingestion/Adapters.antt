-- ===== src/Ingestion/Adapters.antt =====
-- ingestion/greenhouse, ingestion/lever and `get_json` of ingestion/base.py (app): what a source's
-- answers become.
pub mod Json
pub mod Postings
pub mod Fetch
pub mod Entries
