-- ===== src/Order/Manager/Expiry.antt =====
-- When a renewed and an upgraded order are read as expired. The chain counts 600 blocks to an hour.
use titan_explorer.Order.Types.{Order}
