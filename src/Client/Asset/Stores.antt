-- ===== src/Client/Asset/Stores.antt =====
-- `showAsset` with the server at the other end of the connection.
use auction_simulator.World.{World}
use auction_simulator.World.Platform.{Platform}
