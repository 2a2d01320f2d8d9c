-- ===== src/Client/Started.antt =====
-- From the command line to the runs: the receiver and the sender that ReceivingClient.cpp and SendingClient.cpp of
-- src/api/qpid-proton/reactor start from validated options.
use cli_cpp.Receiver
use cli_cpp.Receiver.{Receiver}
