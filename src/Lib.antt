-- ===== src/Lib.antt =====
-- OPC-UA.Server: an OPC UA server whose nodes get their values from data providers.
--
-- The program's parts. A client's request reaches the node manager of the SDK, which is not part of
-- the repository. The bridge (src/sasModelProvider/base) turns its OPC UA values into the values
-- that the server shares with its data providers (src/ioDataProvider) and back, through the
-- converter of ConverterUa2IO.cpp. The binary provider (src/provider/binary) passes those values on
-- as messages, through the converter of ConverterBin2IO.cpp. Every part throws the exceptions of
-- src/common/Exception.cpp and gets its logger from src/common/logging/LoggerFactory.cpp.
--
-- The files, with the code that each models:
-- Prelude: the shared names; numbers, texts, integers of a fixed width, and `Result`, what a C++
--   call does. A C++ exception is `throws`, with the place that throws it; `undefined` is undefined
--   behaviour. A `std::string` is the list of its bytes, a `c_str()` what stands before the first NUL.
-- Common.Exception: src/common/Exception.cpp. Common.LoggerFactory: src/common/logging/LoggerFactory.cpp.
-- Io: the classes of src/ioDataProvider (Scalar, Array, Structure, NodeId, NodeProperties,
--   OpcUaEventData, NodeData) as data types, with their copy constructors in Io.Copy.
-- Binary.Dto: the classes of src/provider/binary/messages/dto. Binary.ParamId: ParamId.cpp, the
--   text of an id and the constructor from a text, with a memory for the strings of its local vector. Binary.Converter: src/provider/binary/messages/ConverterBin2IO.cpp.
-- Ua.Sdk: what the code uses of the SDK, a record of operations that is a parameter of the model, and
--   a record of laws that state its documented behaviour. Ua.ToUa and Ua.ToIo: the two directions of
--   src/sasModelProvider/base/ConverterUa2IO.cpp, one function for a conversion function or a case of
--   its switches; the functions on elements and scalars are in Ua.ToUa.Elements and Ua.ToUa.Numbers,
--   the cases of convertUaBuildInType2io in Ua.ToIo.Cases.
-- Bridge: src/sasModelProvider/base/HaNodeManagerIODataProviderBridge.cpp, the value handling of a node
--   (getValueHandling) and the writing of values (writeValues, beforeSetAttributeValue), over a record of
--   the components it calls: the converter, the data provider and the node manager. Bridge.Policy has
--   what the properties say of a node, which the descriptions of the methods use. Bridge.Reading:
--   readValues of the same file; a read of `variables` out of its bounds is `undefined`.
--   Bridge.Handling: the methods updateValueHandling; Bridge.Calls: beginCall. Bridge.Lifecycle: the
--   constructor, afterStartUp and beforeShutDown, with a store of live objects. Bridge.Changes:
--   src/sasModelProvider/base/IODataProviderSubscriberCallback.cpp, what the data provider sends.
-- Generator: src/sasModelProvider/base/generator/DataGenerator.cpp, the values for a data type.
-- Browser: src/sasModelProvider/base/NodeBrowser.cpp, over the node managers as lookups of nodes.
-- EventTypes: src/sasModelProvider/base/EventTypeRegistry.cpp; EventTypes.Data: EventTypeData.cpp.
-- Subscription: src/binaryServer/HaSubscription.cpp, a client's subscription at another server. The state
--   has the counter of the client handles, the subscription and the map of the monitored items
--   (Subscription.Handles). The server's answers are a record that each call takes; what a method leaves
--   is an `Outcome`, with a state also where it throws. The methods and the calls of the SDK's thread are
--   in Subscription.Methods, and Subscription.Reach has the relation of all orders of such calls.
-- Client.Cache: src/binaryServer/CachedConverterCallback.cpp, the type information of a client's session;
--   the callback that it asks is a parameter.
-- Session: src/binaryServer/HaSession.cpp, over a record of the answers of the SDK's session.
--   Session.Reading: the methods read, and Session.Describing what they say of one node; Session.Fields: getEventFields; Session.Methods: write, call,
--   getMethodArguments, getSuperTypes and getVariable; Session.Connection: open, close, subscribe and
--   unsubscribe, with the state of the session and of its Subscription.
-- Client.Requests, Client.Notices and Client.Model: src/binaryServer/Client.cpp. Client.Requests has the
--   requests, over Session, Client.Cache and the functions of Binary.Converter; Client.Notices dataChanged
--   and newEvents; Client.Model browse, findFieldModel and checkModel.
-- Provider: src/provider/binary/jDataProvider/JDataProvider.cpp, read, write, subscribe, unsubscribe and
--   notification, over a record of the calls of the virtual machine and of src/common/native2J.
--   Provider.Properties: the properties of the nodes; Provider.Model: findFieldModel, getParamId and
--   updateModel; Provider.Calls: call, with a smaller record of the calls.
-- NodeSet: src/provider/uaNodeSetXml/sasModelProvider/HaNodeManagerNodeSetXml.cpp, addVariables,
--   addObjectTypeElements and isEventType; NodeSet.Created: allNodesAndReferencesCreated, the start and the
--   shutdown. It uses Browser and EventTypes; the browsing of the SDK and the bridge are parameters.
--
-- The bounds. The machine is the 32-bit ARM that the packages are built for: `int` and `long` have 32
-- bits, `char` is unsigned. Each narrowing conversion is written out. `Ua.ToIo.ua_to_io` recurses on
-- fuel, one unit for a level of nesting of the OPC UA value, since a value of the SDK has no structure
-- to recurse on; a scalar needs one unit. `EventTypes.walk` recurses on fuel, one
-- unit for a type on the way up; one unit more than there were registrations is enough.
-- `Client.Cache.preload` recurses on fuel, one unit for a level of nested structures; one unit more than
-- the type's rank is enough, where a structure has a higher rank than the types of its fields.
-- `Browser.climb` recurses on fuel, one unit for a type on the way up and one for the end; two units more
-- than the type's rank are enough, where a type has a higher rank than its super type.
-- `Generator.generate` recurses on fuel, one unit for a call; a scalar of a standard type needs one.
-- Session.Connection.try_connect has fuel for the turns of its loop: one more than the seconds of the time-out
-- is enough, if no delay is without limit. Client.Model.browse_rest has fuel for the answers of browseNext; it
-- needs as many as the server gives up to the last. Session.Fields.get_event_fields and
-- Client.Model.find_field_model have the depth of the stack: they are undefined beneath it.
-- The recursive functions of NodeSet have the depth of the stack, too. NodeSet.Ending has the depth that
-- add_object_type_elements needs, NodeSet.Deciding that of is_event_type. Every other function is structurally
-- recursive.
--
-- Not modelled: logging (a call has no effect on the values), the destruction of objects but for those
-- of the bridge, the events of the data generator and of the data provider for Java, the JNI glue, the
-- loading of XML models, and the start and stop of the server and of the client, which call the SDK or the
-- virtual machine. A float is its bit pattern.
pub mod Prelude
pub mod Common
pub mod Io
pub mod Binary
pub mod Ua
pub mod Bridge
pub mod EventTypes
pub mod Subscription
pub mod Client
pub mod Browser
pub mod Generator
pub mod Session
pub mod Provider
pub mod NodeSet
