-- ===== src/Database.antt =====
-- The tables of the database (app), where one session acts on more than the part of one component.
use job_finder_agent.Common.{List}
use job_finder_agent.Auth.Models.{Identity}
use job_finder_agent.Preferences.Store.{Profile}
use job_finder_agent.Notifications.Deliveries.{Delivery}
use job_finder_agent.Ingestion.Jobs.{Catalog}

pub record Records : Type 0 where
  pub identity : Identity
  pub catalog : Catalog
  pub profiles : List Profile
  pub deliveries : List Delivery
