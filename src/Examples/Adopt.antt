-- ===== src/Examples/Adopt.antt =====
-- An adoption of 10.0.0.0/26, which an import has recorded and a VPC occupies.
use platform_ipam.Prelude.{[], ◌∷◌, true, false}
use platform_ipam.Domain.Rows.{Network, Resource, Observation, InventorySnapshot}
use platform_ipam.Service.Adopt.{Pin}
use platform_ipam.Service.Adopt.Pinned.{Pinned}
use platform_ipam.Examples.{clean, block_text}

abbrev imported : Network
imported = record {
  id = "n1";
  cidr = block_text;
  allocation_id = "";
  operation_id = "";
  parent_pool = false;
  imported = true;
  owned = false;
  import_batch = "b1";
  status = "active";
  aws_account_id = "111";
  aws_region = "eu";
}

abbrev pub inventory : InventorySnapshot
inventory = record { networks = imported ∷ []; complete = true }

abbrev vpc : Resource
vpc = record {
  account_id = "111";
  region = "eu";
  type = "vpc";
  id = "vpc-1";
  cidr = block_text;
  cidrs = [];
  parent_id = "";
  zone_id = "";
  tags = [];
  state = "";
}

abbrev pub cloud : Observation
cloud = record clean { resources = vpc ∷ [] }

abbrev pin : Pin
pin = record { operator = "op"; cidr = block_text; network_id = "n1"; resource_id = "vpc-1" }
