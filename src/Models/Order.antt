-- ===== src/Models/Order.antt =====
-- Events, orders and evaluation requests (src/promiseguard/models.py).
use promiseguard_ai.Prelude.{ℕ, Bool, Option, List}
use promiseguard_ai.Prelude.Text.{String}
use promiseguard_ai.Models.Enums.{OperatingMode}

-- An IEEE double, by its bits. Its arithmetic is a parameter of the code that computes with it.
pub record Float : Type 0 where
  pub bits : ℕ

-- `NonNegativeMoney`, a Decimal that is not below zero: digits / 10 ^ places dollars.
pub record NonNegativeMoney : Type 0 where
  pub digits : ℕ
  pub places : ℕ

pub record SourceReference : Type 0 where
  pub system : String
  pub record_id : String
  pub observed_at : ℕ

pub record OperationalEvent : Type 0 where
  pub source_system : String
  pub event_id : String
  pub event_version : ℕ
  pub event_type : String
  pub event_time : ℕ
  pub ingestion_time : ℕ
  pub schema_version : String
  pub deduplication_key : String

pub record OrderContext : Type 0 where
  pub order_id : String
  pub evaluation_time : ℕ
  pub promised_delivery_at : ℕ
  pub gross_margin : NonNegativeMoney
  pub cancellation_cost : NonNegativeMoney
  pub support_cost : NonNegativeMoney
  pub inventory_reserved : Bool
  pub inventory_available : Bool
  pub inventory_confidence : Float
  pub carrier_on_time_probability : Float
  pub hours_since_expected_scan : Float
  pub alternative_location_available : Bool
  pub reroute_on_time_probability : Float
  pub carrier_upgrade_on_time_probability : Float
  pub reroute_cost : NonNegativeMoney
  pub carrier_upgrade_cost : NonNegativeMoney
  pub data_freshness_minutes : ℕ
  pub source_references : List SourceReference
  pub external_notes : Option String
  pub customer_id : String
  pub customer_segment : String
  pub currency : String
  pub sku : String
  pub quantity : ℕ
  pub current_fulfilment_location : String
  pub alternative_location_id : Option String
  pub current_carrier_service : String
  pub upgraded_carrier_service : String
  pub split_shipment_possible : Bool
  pub split_shipment_on_time_probability : Float
  pub split_shipment_cost : NonNegativeMoney
  pub restricted_product : Bool
  pub tenant_id : String

pub record EvaluationRequest : Type 0 where
  pub event : OperationalEvent
  pub order : OrderContext
  pub mode : OperatingMode
