-- ===== src/Platform/GatewayHub/Steps/Rooms.antt =====
-- Who is online when connections of a gateway overlap.
use ygate_git.Base.Text.{Text}
