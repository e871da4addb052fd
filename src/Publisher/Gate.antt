-- ===== src/Publisher/Gate.antt =====
-- The gate of nodes/opcua-publisher.js: while the transport is not connected the newest message is
-- kept, and sent once it is.
use node_red_contrib_opcua_s.Publisher.{Publisher}
