-- ===== src/Client/Record/Whole.antt =====
-- `showRecord` with the server at the other end.
use auction_simulator.World.{World}
use auction_simulator.World.Platform.{Platform}
use auction_simulator.World.Ends.{Ends}
use auction_simulator.Udp.Dispatch.{show_record as serve_record}
use auction_simulator.Client.Commands.{show_record}
