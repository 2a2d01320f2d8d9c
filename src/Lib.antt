-- ===== src/Lib.antt =====
-- cli-cpp: command line clients for AMQP brokers on top of qpid-proton. aac3_sender,
-- aac3_receiver and aac3_connector parse their options, prepare a connection from them and run a
-- message handler that proton calls back.
--
-- How the program's parts interact, and where they are modelled:
-- * src/contrib/optparse/OptionParser.cpp parses the command line into Values. Optparse has its
--   data and add_option, Optparse/Process check_type and process_opt, Optparse/Loop parse_args and
--   the rest of what it calls (handle_short_opt, handle_long_opt, lookup_long_opt),
--   Optparse/Numbers the numbers that streams, strtol, strtoul and atoi read. Values and the maps
--   of options are association lists (StrMap); a pointer to an option is its number; error and
--   exit are results. Help has the texts: str_replace, str_format, basename, the help of an option
--   (format_help) and of a parser (format_help_of), usage and version, for a given width of the
--   terminal; none is the exception of a text that is too long.
-- * src/common/options/modern/StringAppendCallback.cpp collects the values of options that may
--   be given several times: Append (append, getStrings).
-- * src/common/options/modern registers and validates the options of the clients: Cli/Modern,
--   Cli/Sender, Cli/Receiver and Cli/Connector are the tables, Cli/Validate the four validate
--   functions.
-- * src/common/UriParser.cpp cuts the broker URL: Uri (parse, as a function of the positions
--   that locate finds). Positions are words of 64 bits that wrap around (CppString), npos is the
--   largest of them, and an exception of substr is none.
-- * src/common/options/OptionsHelper.h and .cpp set the options on an object: Setter (set,
--   setNumber, setBoolean, setMap, setList, getContent), with split and convertToMap of
--   src/common/STLUtils.h.
-- * src/api/qpid-proton/reactor/ConnectingClient.cpp, SendingClient.cpp and ReceivingClient.cpp
--   make the settings of a handler from the options: Client (prepare, settings_of). Client/Sending
--   has the message and the sender of SendingClient::run (message_of, sender_of), Client/Receiving
--   the receiver of ReceivingClient::run (handler_of, receiver_of).
-- * src/api/qpid-proton/reactor/SendingClient.cpp makes the properties and the items of the
--   message: Items (nameVal is name_val, setMessageProperty set_message_property).
-- * src/api/qpid-proton/reactor/handler/CommonHandler.cpp holds the settings and prepares the
--   options of the connection: Handler (configure_reconnect, configure_ssl, connection_options).
-- * src/common/Timer.cpp is the countdown that every handler runs once a second: Timer
--   (operator-- is decrement and decrement_postfix, timerEvent is timer_event).
-- * src/api/qpid-proton/reactor/handler/SenderHandler.cpp, ReceiverHandler.cpp and
--   ConnectorHandler.cpp are the callbacks: Sender, Receiver and Connector. A handler takes the
--   state to the next state and the list of its calls of proton; run takes a list of events, in
--   any order, through the handlers, up to one that ends the program by an exit, an exception or
--   undefined behaviour. Receiver.start has on_container_start in front; Sender/Handled and
--   Receiver/Handled say which events and messages are handled before the end.
-- * src/common/formatter/DictFormatter.cpp prints messages as dictionaries of Python: Formatter
--   (escapeQuotes, getValue, formatList, formatMap, printMessageInterop).
-- * src/common/formatter/Writer.h is the interface of the writers: Writer, a record of
--   operations on a stream, with DictWriter.cpp in Writer/Dict and UpstreamWriter.cpp in
--   Writer/Upstream. Decoder has src/api/qpid-proton/reactor/formatter/ReactorDecoder.cpp over any
--   writer, and printMessage of DictFormatter.cpp (print_dict) and of UpstreamFormatter.cpp
--   (print_upstream); Decoder/Abstract has the rest of src/common/formatter/AbstractDecoder.h.
-- * src/common/logger/Logger.cpp, LoggerWrapper.cpp and src/common/output/Printer.cpp write the
--   log, from the level that setLogLevel of src/api/qpid-proton/common/ModernClient.cpp chooses:
--   Logger (operator<< is insert, the destructor destroy, operator() and its chain statement,
--   initLogger init_logger).
--
-- Prelude has the shared names and lemmas, CppString what the sources use of std::string, with
-- the lemmas on find and substr in CppString/Find, CppString/Substr and CppString/Fields.
-- Samples has the data of the tests, which stand in a module Tests below each component.
--
-- Fuel: the loop of parse_args gets one more than the bytes and the number of its arguments, and
-- each round uses up some of them; getStrings gets three more than the length of its text;
-- escapeQuotes and the loop over getline get one more than the length of theirs, since each
-- round passes a quote or a comma; split and the loop of getContent get one more than the length
-- too, as they pass a separator or a word; str_replace and str_format get one more than the
-- length of their text, since each round passes the pattern or a white space. Counters that only
-- grow are natural numbers: the messages sent are at most the count, and a receiver whose counter
-- would pass the greatest int ends its run there. Ints that come from the command line are
-- integers; the remaining seconds of the timer wrap around below the least int.
--
-- Parameters: the message type of proton with the reading and writing of its body, its reply-to
-- and its address, and what the decoder reads of it, and for SendingClient the message as proton creates it; what proton reads of
-- an identifier and what it streams of a number, as data of the message that is decoded; what a
-- content file holds; the identifier of a durable subscription, which is random; the
-- milliseconds of duration::FOREVER. What a handler reads of proton (credit, error texts) comes
-- with the event.
--
-- Not modelled: option groups and floating-point option types of OptionParser; the log lines of
-- the handlers (Logger has what writes them) and the tracing; the call of the container and its
-- exit code; clocks and sleeping (src/common/Utils.cpp), which are effects; code under
-- ENABLE_BLOCKING and UNSUPPORTED_CONNECTOR_OPTS, and the 32-bit build without
-- ENABLE_IMPLICIT_CONVERSIONS.
pub mod Writer
pub mod Decoder
pub mod Setter
pub mod Help
pub mod Logger
pub mod Prelude
pub mod CppString
pub mod StrMap
pub mod Uri
pub mod Timer
pub mod Append
pub mod Optparse
pub mod Handler
pub mod Sender
pub mod Receiver
pub mod Cli
pub mod Connector
pub mod Client
pub mod Formatter
pub mod Samples
pub mod Items
